-- ===== src/Ipc/Decoding/Objects.antt =====
-- crates/ipc-protocol/src/codec.rs: JSON objects without duplicate keys.
use palka.Base.{
  ℕ, zero, suc, Bool, false, ◌||◌, not, Option, none, some, List, [], ◌∷◌, String, Result, ok, err,
  any, str_eq, ◌==◌, if◌then◌else◌,
}
use palka.Base.Results.{◌>>=◌, ◌>>◌, refuse_if}
use palka.Base.Text.{◌<>◌, trim}
use palka.Ipc.Errors.{RequestParseFailure, protocol, malformed}

-- What the deserializer offers a visitor: the members of an object, each a key and its raw value or
-- the error met there, the elements of an array, or something else; then the error met after them,
-- that of characters after the value included.
pub data Node : Type 0 where
  object : List (String × Result (List ℕ) String) → Option String → Node
  array : List (List ℕ) → Option String → Node
  leaf : Option String → Node

pub record JsonLibrary : Type 0 where
  pub node : List ℕ → Node
  pub members : List ℕ → List (String × Result (List ℕ) String) × Option String
  pub string : List ℕ → Option String
  pub from_utf8 : List ℕ → Result (List ℕ) String
  pub text_of : List ℕ → String
  pub debug : String → String
  pub is_f64 : List ℕ → Bool

abbrev pub finish : Option String → Result Unit RequestParseFailure
finish none = ok tt
finish (some e) = err (malformed ("Malformed JSON: " <> e))

abbrev pub raw_value : Result (List ℕ) String → Result (List ℕ) RequestParseFailure
raw_value (ok raw) = ok raw
raw_value (err e) = err (malformed ("Malformed JSON: " <> e))

-- `visit_map`: the loop over the members, with the keys seen so far.
unfoldable pub visit_map :
    List String
    → List (String × Result (List ℕ) String)
    → Option String
    → Result (List (String × List ℕ)) RequestParseFailure
visit_map seen [] ending = do finish ending; ok []
visit_map seen (m ∷ ms) ending = do
  refuse_if (any (str_eq m.0) seen) (protocol "Duplicate key in JSON object")
  raw ← raw_value m.1
  entries ← visit_map (m.0 ∷ seen) ms ending
  ok ((m.0, raw) ∷ entries)

abbrev pub starts_with : ℕ → List ℕ → Bool
starts_with c [] = false
starts_with c (d ∷ s) = d == c

abbrev pub starts_with_brace : List ℕ → Bool
starts_with_brace = starts_with b'{'

-- Whether `check_raw_structural` looks into a value.
abbrev pub is_nested : List ℕ → Bool
is_nested raw = starts_with b'{' (trim raw) || starts_with b'[' (trim raw)

-- The loop over the values of an object or an array, by a check of one value.
unfoldable pub check_values :
    (List ℕ → Result Unit RequestParseFailure) → List (List ℕ) → Result Unit RequestParseFailure
check_values check [] = ok tt
check_values check (raw ∷ rest) =
    (if is_nested raw then check raw else ok tt) >> check_values check rest

abbrev pub values : List (String × List ℕ) → List (List ℕ)
values [] = []
values (entry ∷ entries) = entry.1 ∷ values entries

module _ (lib : JsonLibrary) where
  unfoldable pub check_raw_structural : ℕ → List ℕ → Result Unit RequestParseFailure
  check_raw_structural zero raw = err (malformed "out of fuel")
  check_raw_structural (suc n) raw = elim (lib.node raw) [
    | object ms ending ↦
        visit_map [] ms ending >>= λ entries. check_values (check_raw_structural n) (values entries)
    | array elements ending ↦ finish ending >> check_values (check_raw_structural n) elements
    | leaf ending ↦ finish ending
  ]

  unfoldable pub parse_raw_object_entries :
      List ℕ → Result (List (String × List ℕ)) RequestParseFailure
  parse_raw_object_entries json_str = do
    refuse_if (not (starts_with_brace (trim json_str))) (protocol "Expected a JSON object")
    let read = lib.members json_str in visit_map [] read.0 read.1

-- `iter().find(|(k, _)| k == name)`
unfoldable pub find_entry : String → List (String × List ℕ) → Option (List ℕ)
find_entry name [] = none
find_entry name (entry ∷ entries) =
    let later = find_entry name entries in if str_eq entry.0 name then some entry.1 else later
