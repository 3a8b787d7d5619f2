-- ===== src/SsTable/Pieces.antt =====
-- The blocks of a table, one behind the other, and how `sstable` of table/sstable.cc finds and reads
-- them.
use frenzy_kv.Prelude.{
  ℕ, zero, suc, ◌+◌, ◌^◌, ◌<◌, ◌≡◌, refl, sym, ap, ◌∙◌, arith, List, [], ◌∷◌, ◌++◌, All, map, Bool,
  true, false, length, length-append, take, take-append, drop-append, append_assoc, ◌==◌,
  if◌then◌else◌, Option, ok, replicate,
}
use mathlib.Core.List.{map-append}
use frenzy_kv.Bytes.{Bytes, overwrite, overwrite_all}
use frenzy_kv.Bytes.Endian.{BigEndian, encode, length-encode, decode-encode}
use frenzy_kv.Kv.Entry.{KvEntry}
use frenzy_kv.Kv.RoundTrip.{stored}
use frenzy_kv.Io.Kernel.{Kernel}
use frenzy_kv.Io.Readable.{read_at, open_readable}
use frenzy_kv.Block.Builder.{Compressor}
use frenzy_kv.Block.Integrity.{sealed}
use frenzy_kv.Block.Content.{IsContent}
use frenzy_kv.Block.RoundTrip.{IsBlockOf, plainly, packed_by}
use frenzy_kv.SsTable.{TableDeps}
use frenzy_kv.SsTable.Reader.{SsTable, btl_value_impl, read_into, offsets_loop}
use frenzy_kv.SsTable.Lookup.{entries_of_blocks}
use frenzy_kv.SsTable.Blocks.{length-sealed, get_block-IsBlockOf}

pub record Piece : Type 0 where
  pub content : Bytes
  pub block : Bytes
  pub entries : List KvEntry

abbrev pub pieces_bytes : List Piece → Bytes
pieces_bytes [] = []
pieces_bytes (p ∷ ps) = p.block ++ pieces_bytes ps

abbrev pub pieces_entries : List Piece → List KvEntry
pieces_entries [] = []
pieces_entries (p ∷ ps) = p.entries ++ pieces_entries ps

abbrev pub offsets_from : ℕ → List Piece → List (ℕ × ℕ)
offsets_from offset [] = []
offsets_from offset (p ∷ ps) = (offset, length p.block) ∷ offsets_from (offset + length p.block) ps

pub pieces_bytes-append :
    (ps qs : List Piece) → pieces_bytes (ps ++ qs) ≡ pieces_bytes ps ++ pieces_bytes qs
pieces_bytes-append [] qs = refl
pieces_bytes-append (p ∷ ps) qs =
    ap (λ b. p.block ++ b) (pieces_bytes-append ps qs)
    ∙ sym (append_assoc p.block (pieces_bytes ps) (pieces_bytes qs))

pub pieces_entries-append :
    (ps qs : List Piece) → pieces_entries (ps ++ qs) ≡ pieces_entries ps ++ pieces_entries qs
pieces_entries-append [] qs = refl
pieces_entries-append (p ∷ ps) qs =
    ap (λ b. p.entries ++ b) (pieces_entries-append ps qs)
    ∙ sym (append_assoc p.entries (pieces_entries ps) (pieces_entries qs))

module _ ⦃e : BigEndian⦄ where
  pub record IsPiece (crc32c : Bytes → ℕ) (c : Option Compressor) (p : Piece) : Type 0 where
    pub of : IsBlockOf crc32c c p.content p.block
    pub is : IsContent p.content p.entries
    pub small : length p.content + 9 < 2 ^ 32

  -- A block starts with its length.
  pub record Starts (block : Bytes) : Type 0 where
    pub rest : Bytes
    pub begins : block ≡ encode 4 (length block) ++ rest
    pub fits : length block < 2 ^ 32
    pub some_byte : 0 < length block

  sealed-Starts :
      (crc32c : Bytes → ℕ) (content : Bytes) (compressed : Bool)
      → length content + 9 < 2 ^ 32
      → Starts (sealed crc32c content compressed)
  sealed-Starts crc32c content compressed small =
      let n = length-sealed crc32c content compressed in
      record {
        rest = content ++ (encode 1 (if compressed then 1 else 0) ++ encode 4 (crc32c content));
        begins =
            ap
              (λ m.
                encode 4 m
                ++ (content
                    ++ (encode 1 (if compressed then 1 else 0) ++ encode 4 (crc32c content))))
              (sym n);
        fits = omega (arith, n);
        some_byte = omega (arith, n);
      }

  pub IsBlockOf-Starts :
      (crc32c : Bytes → ℕ) (c : Option Compressor) (content block : Bytes)
      → IsBlockOf crc32c c content block
      → length content + 9 < 2 ^ 32
      → Starts block
  IsBlockOf-Starts crc32c c content _ plainly small = sealed-Starts crc32c content false small
  IsBlockOf-Starts crc32c c content _ (packed_by cp packed is i) small =
      sealed-Starts crc32c packed true i.short

  module _ ⦃k : Kernel⦄ where
    pub read_at-append :
        (n : ℕ) (pre xs post : Bytes)
        → length xs ≡ n
        → read_at n (length pre) (open_readable (pre ++ (xs ++ post))) ≡ xs
    unfolding read_at open_readable
    read_at-append n pre xs post h =
        k.delivered n (length pre) (pre ++ (xs ++ post))
        ∙ ap (take n) (drop-append (length pre) pre (xs ++ post) refl)
        ∙ take-append n xs post h

    btl_value_lem :
        (pre block post : Bytes) (t : SsTable)
        → t.file ≡ open_readable (pre ++ (block ++ post))
        → Starts block
        → btl_value_impl (length pre) t ≡ length block
    unfolding btl_value_impl read_into
    btl_value_lem pre block post t file s =
        let four = length-encode 4 (length block) in
        let flat : pre ++ (block ++ post) ≡ pre ++ (encode 4 (length block) ++ (s.rest ++ post)) =
          ap (λ b. pre ++ b)
            (ap (λ b. b ++ post) s.begins ∙ append_assoc (encode 4 (length block)) s.rest post) in
        let found : read_at 4 (length pre) t.file ≡ encode 4 (length block) =
          ap (λ f. read_at 4 (length pre) f) (file ∙ ap open_readable flat)
          ∙ read_at-append 4 pre (encode 4 (length block)) (s.rest ++ post) four in
        let nonzero : (length (encode 4 (length block)) == 0) ≡ false = ground (arith, four) in
        let whole : overwrite (encode 4 (length block)) (replicate 4 0) ≡ encode 4 (length block) =
          overwrite_all (encode 4 (length block)) (replicate 4 0) (omega (arith, four)) in
        rw found (rw nonzero (rw whole (decode-encode 4 (length block) s.fits)))

    offsets_step :
        (fuel offset mbo n : ℕ) (t : SsTable) (later : List (ℕ × ℕ))
        → offset < mbo
        → btl_value_impl offset t ≡ n
        → 0 < n
        → offsets_loop fuel (offset + n) mbo t ≡ ok (true, later)
        → offsets_loop (suc fuel) offset mbo t ≡ ok (true, (offset, n) ∷ later)
    unfolding offsets_loop
    offsets_step fuel offset mbo n t later lt is pos rest = ground (arith, is, rest)

    -- The offsets of the blocks of a file are found.
    pub offsets_loop-pieces :
        (fuel : ℕ) (crc32c : Bytes → ℕ) (c : Option Compressor) (ps : List Piece) (pre post : Bytes)
        (t : SsTable)
        → t.file ≡ open_readable (pre ++ (pieces_bytes ps ++ post))
        → All (IsPiece crc32c c) ps
        → length (pieces_bytes ps) < fuel
        → offsets_loop fuel (length pre) (length pre + length (pieces_bytes ps)) t
          ≡ ok (true, offsets_from (length pre) ps)
    offsets_loop-pieces zero crc32c c ps pre post t file h lt = absurd (omega arith)
    offsets_loop-pieces (suc fuel) crc32c c [] pre post t file h lt =
        unfold offsets_loop in ground arith
    offsets_loop-pieces (suc fuel) crc32c c (p ∷ ps) pre post t file (h, hs) lt =
        let s = IsBlockOf-Starts crc32c c p.content p.block h.of h.small in
        let here : pre ++ ((p.block ++ pieces_bytes ps) ++ post)
            ≡ pre ++ (p.block ++ (pieces_bytes ps ++ post)) =
          ap (λ b. pre ++ b) (append_assoc p.block (pieces_bytes ps) post) in
        let size = length-append p.block (pieces_bytes ps) in
        let n = length-append pre p.block in
        let at : length pre + length p.block ≡ length (pre ++ p.block) = sym n in
        let end : length pre + length (p.block ++ pieces_bytes ps)
            ≡ length (pre ++ p.block) + length (pieces_bytes ps) =
          omega (arith, size, n) in
        let later =
          offsets_loop-pieces fuel crc32c c ps (pre ++ p.block) post t
            (file
              ∙ ap open_readable (here ∙ sym (append_assoc pre p.block (pieces_bytes ps ++ post))))
            hs (omega (arith, size, s.some_byte)) in
        offsets_step fuel (length pre) (length pre + length (p.block ++ pieces_bytes ps))
          (length p.block) t (offsets_from (length pre + length p.block) ps)
          (omega (arith, size, s.some_byte))
          (btl_value_lem pre p.block (pieces_bytes ps ++ post) t (file ∙ ap open_readable here) s)
          s.some_byte (rw (at, end) later)

    -- The entries of the blocks of a file are read, in their order.
    pub entries_of_blocks-pieces :
        (deps : TableDeps) (memory : ℕ → Bytes) (ps : List Piece) (pre post : Bytes) (t : SsTable)
        → t.file ≡ open_readable (pre ++ (pieces_bytes ps ++ post))
        → ((n : ℕ) → length (memory n) ≡ n)
        → ((bytes : Bytes) → deps.crc32c bytes < 2 ^ 32)
        → All (IsPiece deps.crc32c deps.named) ps
        → entries_of_blocks deps memory t (offsets_from (length pre) ps)
          ≡ ok (map stored (pieces_entries ps))
    unfolding entries_of_blocks
    entries_of_blocks-pieces deps memory [] pre post t file size crc h = refl
    entries_of_blocks-pieces deps memory (p ∷ ps) pre post t file size crc (h, hs) =
        let here : pre ++ ((p.block ++ pieces_bytes ps) ++ post)
            ≡ pre ++ (p.block ++ (pieces_bytes ps ++ post)) =
          ap (λ b. pre ++ b) (append_assoc p.block (pieces_bytes ps) post) in
        let (b, g, q) =
          get_block-IsBlockOf deps memory deps.named p.content p.block pre (pieces_bytes ps ++ post)
            p.entries t refl size crc h.of h.is h.small (file ∙ ap open_readable here) in
        let later : entries_of_blocks deps memory t (offsets_from (length pre + length p.block) ps)
            ≡ ok (map stored (pieces_entries ps)) =
          rw (sym (length-append pre p.block)) (
            entries_of_blocks-pieces deps memory ps (pre ++ p.block) post t
              (file
                ∙ ap open_readable
                    (here ∙ sym (append_assoc pre p.block (pieces_bytes ps ++ post))))
              size crc hs) in
        rw g (rw q (rw later (ap ok (sym (map-append stored p.entries (pieces_entries ps))))))
