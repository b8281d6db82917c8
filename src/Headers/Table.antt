-- ===== src/Headers/Table.antt =====
-- The string table of a ResponseHeader of internal/opcua/nodeid.go: its bytes, and what is read back.
use opcda_access_adapter.Prelude.{
  ℕ, ◌-◌, ◌*◌, ◌≤◌, ◌≡◌, refl, ap, ◌∙◌, Option, none, some, List, [], ◌∷◌, ◌++◌, append_assoc,
  length, drop, length-append, length-drop, drop-drop, drop-append_self, All, le→ltb_false, arith,
}
use opcda_access_adapter.Prelude.Int.{word}
use opcda_access_adapter.Prelude.Bytes.{le, length-le}
use opcda_access_adapter.Binary.Limits.{BinaryLimits, IsValid}
use opcda_access_adapter.Binary.Decoder.{
  Decoder, got, and_then, remaining, check_elements, read_array_length,
}
use opcda_access_adapter.Binary.Emits.{Emits, Emits-then, Emits-skip}
use opcda_access_adapter.Binary.Reads.{Reads, Reads-bind, Reads-map, Reads-give, pending, advance}
use opcda_access_adapter.Binary.Texts.{Reads-length, Reads-null}
use opcda_access_adapter.Binary.Writes.{
  string_wire, null_wire, Emits-string, Emits-array_length, Emits-int32,
}
use opcda_access_adapter.Binary.Encoder.{write_null_array, null_length}
use opcda_access_adapter.Structures.Names.{Reads-text}
use opcda_access_adapter.Headers.{
  write_entries, write_string_table, read_entries, read_table_of, read_string_table,
}

abbrev pub entries_wire : List (List ℕ) → List ℕ
entries_wire [] = []
entries_wire (entry ∷ entries) = string_wire entry ++ entries_wire entries

abbrev pub table_wire : Option (List (List ℕ)) → List ℕ
table_wire none = null_wire
table_wire (some entries) = le 4 (length entries) ++ entries_wire entries

-- The entries and their count are within the limits.
abbrev pub EntriesFit : BinaryLimits → List (List ℕ) → Type 0
EntriesFit l entries = All (λ s. length s ≤ l.max_string_bytes) entries

abbrev pub TableFits : BinaryLimits → Option (List (List ℕ)) → Type 0
TableFits l none = Unit {0}
TableFits l (some entries) = (length entries ≤ l.max_array_length) × EntriesFit l entries

-- An entry takes at least the four bytes of its length.
entries_size : (entries : List (List ℕ)) → length entries * 4 ≤ length (entries_wire entries)
entries_size [] = omega arith
entries_size (entry ∷ entries) = omega (
  arith,
  entries_size entries,
  length-append (string_wire entry) (entries_wire entries),
  length-append (le 4 (length entry)) entry,
  length-le 4 (length entry),
)

elements_fit :
    (n : ℕ) (d : Decoder) (bs : List ℕ)
    → pending d ≡ bs
    → n * 4 ≤ length bs
    → check_elements 4 (some n) d ≡ got (some n) d
unfolding check_elements remaining
elements_fit n d bs hp h =
    let room : n * 4 ≤ length d.buffer - d.offset =
      omega (arith, length-drop d.offset d.buffer, ap length hp) in
    rw (le→ltb_false _ _ room) refl

module _ {l : BinaryLimits} (v : IsValid l) where
  Emits-entries :
      (entries : List (List ℕ))
      → Emits l (write_entries entries) (entries_wire entries) (EntriesFit l entries)
  unfolding write_entries
  Emits-entries [] = Emits-skip
  Emits-entries (entry ∷ entries) = Emits-then (Emits-string v entry) (Emits-entries entries)

  pub Emits-string_table :
      (table : Option (List (List ℕ)))
      → Emits l (write_string_table table) (table_wire table) (TableFits l table)
  unfolding write_string_table write_null_array word
  Emits-string_table none = Emits-int32 null_length
  Emits-string_table (some entries) =
      Emits-then (Emits-array_length v (length entries)) (Emits-entries entries)

  Reads-entries :
      (entries : List (List ℕ))
      → EntriesFit l entries
      → Reads l (read_entries (length entries)) (entries_wire entries) entries
  unfolding read_entries
  Reads-entries [] h = Reads-give []
  Reads-entries (entry ∷ entries) h =
      Reads-bind _ (Reads-text v entry h.0)
        (Reads-map (λ es. entry ∷ es) (Reads-entries entries h.1))

  Reads-table_of :
      (entries : List (List ℕ))
      → EntriesFit l entries
      → Reads l (read_table_of (some (length entries))) (entries_wire entries) (some entries)
  unfolding read_table_of
  Reads-table_of entries h = Reads-map some (Reads-entries entries h)

  pub Reads-string_table :
      (table : Option (List (List ℕ)))
      → TableFits l table
      → Reads l read_string_table (table_wire table) table
  unfolding read_string_table read_array_length read_table_of check_elements
  Reads-string_table none h = record {
    runs = λ d tail hl hp.
        ap (λ r. and_then (and_then r (check_elements 4)) read_table_of)
          ((Reads-null d.limits.max_array_length).runs d tail hl hp);
  }
  Reads-string_table (some entries) (few, h) = record {
    runs = λ d tail hl hp.
        let n : ℕ = length entries in
        let after : List ℕ = entries_wire entries ++ tail in
        let here : pending d ≡ le 4 n ++ after =
          hp ∙ append_assoc (le 4 n) (entries_wire entries) tail in
        let next : pending (advance (length (le 4 n)) d) ≡ after =
          drop-drop d.offset (length (le 4 n)) d.buffer
          ∙ ap (drop (length (le 4 n))) here
          ∙ drop-append_self (le 4 n) after in
        let bound : n ≤ d.limits.max_array_length =
          omega (arith, few, ap (λ k. k.max_array_length) hl) in
        ap (λ r. and_then (and_then r (check_elements 4)) read_table_of)
          ((Reads-length d.limits.max_array_length n bound (omega (arith, few, v.array_fits))).runs
            d after hl here)
        ∙ ap (λ r. and_then r read_table_of)
            (elements_fit n (advance (length (le 4 n)) d) after next
              (omega (arith, entries_size entries, length-append (entries_wire entries) tail)))
        ∙ (Reads-table_of entries h).runs (advance (length (le 4 n)) d) tail hl next
        ∙ ap (λ k. got (some entries) (record d { offset = k }))
            (omega (arith, length-append (le 4 n) (entries_wire entries)));
  }
