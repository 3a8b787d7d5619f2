-- ===== src/Version/Descriptor/Number.antt =====
-- The sequence number file of db/version_descriptor.cc.
use frenzy_kv.Prelude.{
  ℕ, ◌≡◌, refl, ap, ◌∙◌, arith, [], ◌++◌, true, ok, ◌==◌, length, take, take_all,
}
use frenzy_kv.Bytes.{Bytes}
use frenzy_kv.Io.Buffer
use frenzy_kv.Io.Kernel.{Kernel}
use frenzy_kv.Io.Writable.{Writable, flush}
use frenzy_kv.Io.Writable.Content.{contents, flush-disk}
use frenzy_kv.Io.Readable.{open_readable, read_next}
use frenzy_kv.Version.Descriptor.{write_leatest_sequence_number, get_leatest_sequence_number}
use frenzy_kv.Version.Descriptor.RoundTrip.{append_lem}

-- A sequence number that is written into an empty file is read back.
pub get-write_leatest_sequence_number :
    ⦃k : Kernel⦄ (encode : ℕ → Bytes) (decode : Bytes → ℕ) (seq : ℕ) (f : Writable)
    → length (encode seq) ≡ 4
    → decode (encode seq) ≡ seq
    → Buffer.IsValid f.buffer
    → f.need_buffered ≡ true
    → contents f ≡ []
    → (g : Writable) × (write_leatest_sequence_number encode seq f ≡ ok (true, g))
      × (get_leatest_sequence_number decode (open_readable g.disk) ≡ seq)
unfolding write_leatest_sequence_number get_leatest_sequence_number read_next open_readable
get-write_leatest_sequence_number ⦃k⦄ encode decode seq f four back v b empty =
    let (g, e, c, bg) = append_lem (encode seq) f (record { valid = v; buffered = b }) in
    let on_disk : (flush g).disk ≡ encode seq =
      flush-disk g bg.valid ∙ c ∙ ap (λ xs. xs ++ encode seq) empty in
    let whole : k.read 4 0 (flush g).disk ≡ encode seq =
      k.delivered 4 0 (flush g).disk
      ∙ ap (take 4) on_disk
      ∙ take_all 4 (encode seq) (omega arith) in
    let test : (length (encode seq) == 4) ≡ true = ground arith in
    (flush g, rw e (rw test refl), rw whole (rw test back))
