-- ===== src/Props/Entities.antt =====
-- storage/prop_store.rs: `encode`, `decode` and `decode_selected` on the properties of an entity.
use pg_eddy.Common.{
  ℕ, zero, suc, ◌+◌, ◌^◌, ◌≤◌, ◌<◌, ◌≡◌, refl, sym, ap, ◌∙◌, inl, inr, Bool, true, false, some,
  List, [], ◌++◌, append-nil, append_assoc, arith, leb, Bool-cases, length, length-append,
  if◌then◌else◌, Result, ok, >>=-eq-ok,
}
use pg_eddy.Common.Bytes.{le_bytes, length-le_bytes, from_le-le_bytes}
use pg_eddy.Common.Int.{ℤ, IsI32, to_bits, to_bits-lt, from_bits-to_bits}
use pg_eddy.Common.Position.{At, At-start, At-move, At-slice}
use pg_eddy.Json.{Json, Fields, JsonLib, insert_all}
use pg_eddy.Props.{encode_value, encode_entries, encode}
use pg_eddy.Props.Decode.{i32_at}
use pg_eddy.Props.Scan.{enough, decode_loop, decode, decode_selected_loop, decode_selected}
use pg_eddy.Props.Exact.{value_append, IsExact, HasExact, IsReserved, HasReserved}
use pg_eddy.Props.RoundTrip.{encode_value_pos, value_at}
use pg_eddy.Props.SkipExact.{skip_at}

-- The properties whose key `keep` accepts, in their order.
unfoldable pub select : {N : Type 0} → (keep : List ℕ → Bool) → Fields N → Fields N
select keep Fields.end = Fields.end
select keep (Fields.field k v fs) =
    if keep k then Fields.field k v (select keep fs) else select keep fs

module _ {N : Type 0} (lib : JsonLib N) (key_name_for : ℤ → List ℕ) (wanted : ℤ → Bool)
    (keep : List ℕ → Bool) where
  -- `kid` is an id that stands for the key `k`, and is wanted where `k` is kept.
  abbrev pub Names : ℤ → List ℕ → Type 0
  Names kid k = IsI32 kid × (key_name_for kid ≡ k) × (wanted kid ≡ keep k)

  -- The bytes are cells for the properties, each a key id and a value.
  data Holds : Fields N → List ℕ → Type 0 where
    none_left : Holds Fields.end []
    one_more :
        {k : List ℕ} {v : Json N} {fs : Fields N} {bs : List ℕ} (kid : ℤ)
        → Names kid k
        → IsExact lib v
        → IsReserved lib v
        → Holds fs bs
        → Holds
            (Fields.field k v fs)
            (le_bytes 4 (to_bits (2 ^ 31) kid) ++ (encode_value lib [] v ++ bs))

  -- What is at the position of a cell.
  cell-At :
      (bytes : List ℕ) (p : ℕ) (kid : ℤ) (v : Json N) (bs : List ℕ)
      → IsI32 kid
      → At bytes p (le_bytes 4 (to_bits (2 ^ 31) kid) ++ (encode_value lib [] v ++ bs))
      → (i32_at bytes p ≡ kid)
        × (leb (p + 5) (length bytes) ≡ true)
        × At bytes (p + 4) (encode_value lib [] v ++ bs)
  cell-At bytes p kid v bs small h =
      let w = to_bits (2 ^ 31) kid in
      let le = le_bytes 4 w in
      let four = length-le_bytes 4 w in
      let rest = encode_value lib [] v ++ bs in
      (
        rw (At-slice le rest 4 h (sym four), from_le-le_bytes 4 w (to_bits-lt (2 ^ 31) kid small))
            (from_bits-to_bits (2 ^ 31) kid small),
        ground (
          arith,
          h.size,
          four,
          length-append le rest,
          length-append (encode_value lib [] v) bs,
          encode_value_pos lib v,
        ),
        At-move le (p + 4) h (omega arith),
      )

  decode_loop-Holds :
      (fuel : ℕ) (bytes : List ℕ) (p : ℕ) (acc fs : Fields N) (bs : List ℕ)
      → 0 < fuel
      → length bytes < fuel + p
      → Holds fs bs
      → At bytes p bs
      → decode_loop lib key_name_for fuel bytes p acc ≡ some (insert_all lib acc fs)
  unfolding decode_loop insert_all
  decode_loop-Holds zero bytes p acc fs bs h bound held at = absurd (omega arith)
  decode_loop-Holds (suc fuel) bytes p acc _ _ h bound none_left at =
      let last : leb (p + 5) (length bytes) ≡ false = ground (arith, at.size) in rw last
  decode_loop-Holds (suc fuel) bytes p acc _ _ h bound
        (one_more {k} {v} {fs} {bs} kid (small, name, keeps) exact reserved held) at =
      let (id, room, value) = cell-At bytes p kid v bs small at in
      let n = length (encode_value lib [] v) in
      let far : p + 5 ≤ length bytes = ground arith in
      rw
        (
          room,
          value_at lib v exact reserved (enough bytes) bytes (p + 4) bs (omega arith) value,
          id,
          name,
        )
        (decode_loop-Holds fuel bytes (p + 4 + n) (lib.insert k v acc) fs bs (omega arith)
          (omega arith) held (At-move (encode_value lib [] v) (p + 4 + n) value refl))

  decode_selected_loop-Holds :
      (fuel : ℕ) (bytes : List ℕ) (p : ℕ) (acc fs : Fields N) (bs : List ℕ)
      → 0 < fuel
      → length bytes < fuel + p
      → Holds fs bs
      → At bytes p bs
      → decode_selected_loop lib key_name_for wanted fuel bytes p acc
        ≡ some (insert_all lib acc (select keep fs))
  unfolding decode_selected_loop insert_all select
  decode_selected_loop-Holds zero bytes p acc fs bs h bound held at = absurd (omega arith)
  decode_selected_loop-Holds (suc fuel) bytes p acc _ _ h bound none_left at =
      let last : leb (p + 5) (length bytes) ≡ false = ground (arith, at.size) in rw last
  decode_selected_loop-Holds (suc fuel) bytes p acc _ _ h bound
        (one_more {k} {v} {fs} {bs} kid (small, name, keeps) exact reserved held) at =
      let (id, room, value) = cell-At bytes p kid v bs small at in
      let n = length (encode_value lib [] v) in
      let far : p + 5 ≤ length bytes = ground arith in
      let rest = λ (map : Fields N).
        decode_selected_loop-Holds fuel bytes (p + 4 + n) map fs bs (omega arith) (omega arith) held
          (At-move (encode_value lib [] v) (p + 4 + n) value refl) in
      elim (Bool-cases (keep k)) [
        | inl kept ↦
            rw
              (
                room,
                value_at lib v exact reserved (enough bytes) bytes (p + 4) bs (omega arith) value,
                id,
                name,
                keeps,
                kept,
              )
              (rest (lib.insert k v acc))
        | inr dropped ↦
            rw
              (
                room,
                skip_at lib v exact (enough bytes) bytes (p + 4) bs (omega arith) value,
                id,
                keeps,
                dropped,
              )
              (rest acc)
      ]

  module _ {S E : Type 0} (key_id_for : List ℕ → S → Result E (ℤ × S)) where
    -- Whenever the registry gives an id for a key of the properties, the id names the key.
    unfoldable pub Registered : Fields N → Type 0
    Registered Fields.end = Unit {0}
    Registered (Fields.field k v fs) =
        ((s : S) (kid : ℤ) (s' : S) → key_id_for k s ≡ ok (kid, s') → Names kid k) × Registered fs

    encode_entries-Holds :
        (buf : List ℕ) (s : S) (fs : Fields N) (out : List ℕ × S)
        → Registered fs
        → HasExact lib fs
        → HasReserved lib fs
        → encode_entries lib key_id_for buf s fs ≡ ok out
        → (bs : List ℕ) × (out.0 ≡ buf ++ bs) × Holds fs bs
    unfolding encode_entries Registered HasExact HasReserved
    encode_entries-Holds buf s Fields.end out reg exact reserved e =
        let q : (buf, s) ≡ out = cc in ([], rw (← q) (sym (append-nil buf)), none_left)
    encode_entries-Holds buf s (Fields.field k v fs) out (reg, regs) (text, exact, exacts)
          (reserved, all_reserved) e =
        let ((kid, s₁), e₁, e₂) = >>=-eq-ok (key_id_for k s) _ e in
        let le = le_bytes 4 (to_bits (2 ^ 31) kid) in
        let bv = encode_value lib [] v in
        let (bs, split, held) =
          encode_entries-Holds (encode_value lib (buf ++ le) v) s₁ fs out regs exacts all_reserved
            e₂ in
        (
          le ++ (bv ++ bs),
          split
              ∙ ap (λ t. t ++ bs) (value_append lib (buf ++ le) v)
              ∙ append_assoc (buf ++ le) bv bs
              ∙ append_assoc buf le (bv ++ bs),
          one_more kid (reg s kid s₁ e₁) exact reserved held,
        )

    -- The properties that `encode` wrote are what `decode` reads, if they make a map that their
    -- entries, inserted in order, give back, the encoding keeps each value, the decoder gets the memory
    -- that it reserves for each list, and the registry names each key by the id that it gave out.
    pub decode-encode :
        (s : S) (props : Fields N) (out : List ℕ × S)
        → Registered props
        → HasExact lib props
        → HasReserved lib props
        → insert_all lib Fields.end props ≡ props
        → encode lib key_id_for s props ≡ ok out
        → decode lib key_name_for out.0 ≡ some props
    unfolding encode decode
    decode-encode s props out reg exact reserved whole e =
        let (bs, split, held) = encode_entries-Holds [] s props out reg exact reserved e in
        rw split (
          decode_loop-Holds (enough bs) bs 0 Fields.end props bs (omega arith) (omega arith) held
            (At-start bs)
          ∙ ap some whole)

    -- From the bytes that `encode` wrote `decode_selected` makes the map of the properties whose keys
    -- are kept, inserted in their order, and of no others, if the encoding keeps each value, the
    -- decoder gets the memory that it reserves for each list, the registry names each key by the id that
    -- it gave out, and the wanted ids are those of kept keys.
    pub decode_selected-encode :
        (s : S) (props : Fields N) (out : List ℕ × S)
        → Registered props
        → HasExact lib props
        → HasReserved lib props
        → encode lib key_id_for s props ≡ ok out
        → decode_selected lib key_name_for wanted out.0
          ≡ some (insert_all lib Fields.end (select keep props))
    unfolding encode decode_selected
    decode_selected-encode s props out reg exact reserved e =
        let (bs, split, held) = encode_entries-Holds [] s props out reg exact reserved e in
        rw split (
          decode_selected_loop-Holds (enough bs) bs 0 Fields.end props bs (omega arith)
            (omega arith) held (At-start bs))
