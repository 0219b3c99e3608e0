-- ===== src/Ipc/Decoding/Unique.antt =====
-- crates/ipc-protocol/src/codec.rs: the check for duplicate keys, at every depth.
use palka.Base.{ℕ, ◌<◌, ◌≡◌, true, false, none, List, [], ◌∷◌, String, Result, ok, All, length}
use palka.Persistence.Seen.{AreDistinct}
use palka.Ipc.Decoding.Objects.{JsonLibrary, object, array, leaf, values, is_nested}

-- The members of an object whose values can all be read.
abbrev pub readable : List (String × List ℕ) → List (String × Result (List ℕ) String)
readable [] = []
readable (entry ∷ entries) = (entry.0, ok entry.1) ∷ readable entries

module _ (lib : JsonLibrary) where
  -- A JSON text whose objects have distinct keys and values that can be read, at every depth, with
  -- nothing wrong after them; the second type says it of the
  -- values that are objects or arrays.
  mutual
    pub data HasUniqueKeys : List ℕ → Type 0 where
      at_object :
          (text : List ℕ) (entries : List (String × List ℕ))
          → lib.node text ≡ object (readable entries) none
          → AreDistinct (λ e. e.0) entries
          → HaveUniqueKeys (values entries)
          → HasUniqueKeys text
      at_array :
          (text : List ℕ) (elements : List (List ℕ))
          → lib.node text ≡ array elements none
          → HaveUniqueKeys elements
          → HasUniqueKeys text
      at_leaf : (text : List ℕ) → lib.node text ≡ leaf none → HasUniqueKeys text

    pub data HaveUniqueKeys : List (List ℕ) → Type 0 where
      no_more : HaveUniqueKeys []
      plain_value :
          (raw : List ℕ) (rest : List (List ℕ))
          → is_nested raw ≡ false
          → HaveUniqueKeys rest
          → HaveUniqueKeys (raw ∷ rest)
      nested_value :
          (raw : List ℕ) (rest : List (List ℕ))
          → is_nested raw ≡ true
          → HasUniqueKeys raw
          → HaveUniqueKeys rest
          → HaveUniqueKeys (raw ∷ rest)

  -- What the deserializer is relied on for: a value stands within its text, so it is shorter.
  pub record Shrinks : Type 0 where
    pub members_shrink :
        (text : List ℕ) (entries : List (String × List ℕ))
        → lib.node text ≡ object (readable entries) none
        → All (λ raw. length raw < length text) (values entries)
    pub elements_shrink :
        (text : List ℕ) (elements : List (List ℕ))
        → lib.node text ≡ array elements none
        → All (λ raw. length raw < length text) elements
