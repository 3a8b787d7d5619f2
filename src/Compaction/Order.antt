-- ===== src/Compaction/Order.antt =====
-- `kv_entry::operator<` as the order that the compaction sorts by.
use frenzy_kv.Prelude.{◌≡◌, arith, true, false}
use frenzy_kv.Bytes.{string_less}
use frenzy_kv.Bytes.Order.{
  lexicographic-flip, lexicographic_refl, lexicographic_trans, eq_of_lexicographic,
}
use frenzy_kv.Kv.Key.{SequencedKey, key_less, logic_lexicographic_simulate_less}
use frenzy_kv.Kv.Entry.{KvEntry, entry_less}
use frenzy_kv.Kv.KeyOrder.{key_less_trans}

key_less_irrefl : (a : SequencedKey) → key_less a a ≡ false
unfolding key_less logic_lexicographic_simulate_less string_less
key_less_irrefl a = ground (arith, lexicographic_refl a.user_key)

key_less-le_trans :
    (a b c : SequencedKey) → key_less a b ≡ true → key_less c b ≡ false → key_less a c ≡ true
unfolding key_less logic_lexicographic_simulate_less string_less
key_less-le_trans a b c h k =
    let x = a.user_key in
    let y = b.user_key in
    let z = c.user_key in
    ground (
      arith,
      arith,
      lexicographic-flip x y,
      lexicographic-flip y z,
      lexicographic-flip x z,
      lexicographic_trans x y z,
      eq_of_lexicographic x y,
      eq_of_lexicographic y z,
      eq_of_lexicographic z y,
    )

pub irrefl : (x : KvEntry) → entry_less x x ≡ false
unfolding entry_less
irrefl x = key_less_irrefl x.key

pub less-le_trans :
    (x y z : KvEntry) → entry_less x y ≡ true → entry_less z y ≡ false → entry_less x z ≡ true
unfolding entry_less
less-le_trans x y z h k = key_less-le_trans x.key y.key z.key h k

pub less_trans :
    (x y z : KvEntry) → entry_less x y ≡ true → entry_less y z ≡ true → entry_less x z ≡ true
unfolding entry_less
less_trans x y z h k = key_less_trans x.key y.key z.key h k

-- `x` ≤ `y` is that `y` is not less.
pub le_trans :
    (x y z : KvEntry) → entry_less y x ≡ false → entry_less z y ≡ false → entry_less z x ≡ false
le_trans x y z h k = ground (arith, less-le_trans z x y)

pub asymm : (x y : KvEntry) → entry_less x y ≡ true → entry_less y x ≡ false
asymm x y h = ground (arith, less_trans x y x, irrefl x)
