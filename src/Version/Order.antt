-- ===== src/Version/Order.antt =====
-- `file_rep::operator<` is a strict total order.
use frenzy_kv.Prelude.{◌≡◌, arith, true, false, ◌&&◌, ◌==◌, Bool}
use frenzy_kv.Version.{UuidOrder, FileRep, file_less}

unfoldable pub same : FileRep → FileRep → Bool
same a b = (a.level == b.level) && (a.file_id == b.file_id)

module _ ⦃u : UuidOrder⦄ where
  pub file_less_irrefl : (a : FileRep) → file_less a a ≡ false
  unfolding file_less
  file_less_irrefl a = ground (arith, u.less_irrefl a.file_id)

  pub file_less_trans :
      (a b c : FileRep) → file_less a b ≡ true → file_less b c ≡ true → file_less a c ≡ true
  unfolding file_less
  file_less_trans a b c h k = ground (arith, u.less_trans a.file_id b.file_id c.file_id)

  -- Where neither is less, the two are the same file.
  pub file_less_connected :
      (a b : FileRep) → file_less a b ≡ false → file_less b a ≡ false → same a b ≡ true
  unfolding file_less same
  file_less_connected a b h k = ground (arith, u.less_connected a.file_id b.file_id)

  pub less-not-same : (a b : FileRep) → file_less a b ≡ true → same a b ≡ false
  unfolding file_less same
  less-not-same a b h = ground (arith, u.less_irrefl a.file_id)

  pub same_less : (a b c : FileRep) → same a b ≡ true → file_less a c ≡ file_less b c
  unfolding file_less same
  same_less a b c h = ground arith

  pub file_less-le_trans :
      (a b c : FileRep) → file_less a b ≡ true → file_less c b ≡ false → file_less a c ≡ true
  file_less-le_trans a b c h k =
      ground (arith, file_less_trans c a b, file_less_connected a c, same_less a c b)
