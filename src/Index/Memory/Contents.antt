-- ===== src/Index/Memory/Contents.antt =====
-- The whole store as a map from collections and chunk ids (backend/geolytics/index/memory.py).
use geolytics.Prelude.{
  arith, ℕ, ◌≡◌, inl, inr, refl, sym, ap, ◌∙◌, String, Bool, true, false, not, ◌||◌, Option, none,
  some, List, [], ◌∷◌, if◌then◌else◌, Eq, ◌==◌, eq_ℕ, eq_string, length, Bool-cases, if_true,
  if_false, swap_tests, same_tests, apart, ==→eq,
}
use mathlib.Core.Path.{subst}
use geolytics.Chunking.Base.{ChunkId, Chunk}
use geolytics.Index.Memory.{
  Metric, err, ok, key_error, Collection, Store, Rows, dict_get, dict_set, create_collection,
  require, upsert_all, checked_upsert, upsert_in, upsert,
}
use geolytics.Index.Memory.Entries.{IsValid, view, put_all, upsert_all-put_all}

some-injective {ℓ} : {A : Type ℓ} {a b : A} → some a ≡ some b → a ≡ b
some-injective h = cc

module _ {K : Type 0} {A : Type 0} ⦃e : Eq K⦄ where
  pub dict_get-dict_set :
      (k n : K) (a : A) (d : List (K × A))
      → dict_get n (dict_set k a d) ≡ (if k == n then some a else dict_get n d)
  dict_get-dict_set k n a [] = refl
  dict_get-dict_set k n a ((j, b) ∷ d) = elim (Bool-cases (j == k)) [
    | inl h ↦
        ap (dict_get n) (if_true (j == k) _ _ h)
        ∙ ap (λ t. if t then some a else dict_get n d) (ap (λ i. i == n) (==→eq j k h))
        ∙ same_tests (k == n) (j == n) _ _ _ (ap (λ i. i == n) (==→eq j k h))
    | inr h ↦
        ap (dict_get n) (if_false (j == k) _ _ h)
        ∙ ap (λ o. if j == n then some b else o) (dict_get-dict_set k n a d)
        ∙ swap_tests (j == n) (k == n) _ _ _ (apart j k n h)
  ]

fits : (m n w d : ℕ) → m ≡ n → w ≡ d → not (m == n) || not (w == d) ≡ false
fits m n w d e f = ground (arith, e, f)

module _ {V : Type 0} where
  -- What is kept in a collection under an id.
  abbrev pub contents : Store V → String → ChunkId → Option (Chunk × V)
  contents store name id = elim (dict_get name store) [ none ↦ none | some c ↦ view c id ]

  -- Every collection is valid.
  abbrev pub IsValidStore : Store V → Type 0
  IsValidStore store = (name : String) (c : Collection V) → dict_get name store ≡ some c → IsValid c

  pub dict_set-IsValidStore :
      (name : String) (c : Collection V) (store : Store V)
      → IsValid c
      → IsValidStore store
      → IsValidStore (dict_set name c store)
  dict_set-IsValidStore name c store valid all other d h =
      go (name == other) (sym (dict_get-dict_set name other c store) ∙ h)
    where
      go : (b : Bool) → (if b then some c else dict_get other store) ≡ some d → IsValid d
      go true i = subst IsValid (some-injective i) valid
      go false i = all other d i

  create_collection-IsValidStore :
      (name : String) (dim : ℕ) (metric : Metric) (store : Store V)
      → IsValidStore store
      → IsValidStore (create_collection name dim metric store)
  unfolding create_collection
  create_collection-IsValidStore name dim metric store all =
      dict_set-IsValidStore name _ store (record { indexed = refl; matched = refl }) all

  contents-upsert_all :
      (name : String) (chunks : List Chunk) (rows : List V) (store : Store V) (c : Collection V)
      → dict_get name store ≡ some c
      → IsValid c
      → (other : String) (id : ChunkId)
      → contents (dict_set name (upsert_all chunks rows c) store) other id ≡ (
          if name == other
          then put_all chunks rows (contents store name) id
          else contents store other id)
  contents-upsert_all name chunks rows store c found valid other id =
      ap (λ o. seen o) (dict_get-dict_set name other (upsert_all chunks rows c) store)
      ∙ go (name == other)
    where
      seen : Option (Collection V) → Option (Chunk × V)
      seen o = elim o [ none ↦ none | some d ↦ view d id ]

      go :
          (b : Bool)
          → seen (if b then some (upsert_all chunks rows c) else dict_get other store)
            ≡ (if b then put_all chunks rows (contents store name) id else contents store other id)
      go true =
          (upsert_all-put_all chunks rows c valid).1 id
          ∙ ap (λ m. put_all chunks rows m id) (sym (ap viewed found))
        where
          viewed : Option (Collection V) → ChunkId → Option (Chunk × V)
          viewed o i = elim o [ none ↦ none | some d ↦ view d i ]
      go false = refl

  pub require-found :
      (name : String) (store : Store V) (c : Collection V)
      → dict_get name store ≡ some c
      → require name store ≡ ok c
  unfolding require
  require-found name store c found = ap (λ o. elim o [ none ↦ err key_error | some d ↦ ok d ]) found

  -- An upsert into a collection that exists, of as many chunks as rows and of rows as long as the
  -- collection's, succeeds. In a store whose collections are valid it leaves valid collections; in the
  -- collection that it names the new entries are put in one after another, and what every other
  -- collection holds stays.
  pub upsert-contents :
      (name : String) (chunks : List Chunk) (rows : Rows V) (store : Store V) (c : Collection V)
      → IsValidStore store
      → dict_get name store ≡ some c
      → length chunks ≡ length rows.rows
      → rows.width ≡ c.dim
      → (store' : Store V) × (upsert name chunks rows store ≡ ok store')
        × IsValidStore store'
        × ((other : String) (id : ChunkId)
            → contents store' other id ≡ (
                if name == other
                then put_all chunks rows.rows (contents store name) id
                else contents store other id))
  unfolding upsert upsert_in checked_upsert require
  upsert-contents name chunks rows store c all found lengths widths = (
    dict_set name (upsert_all chunks rows.rows c) store,
    ap (upsert_in name chunks rows store) (require-found name store c found)
        ∙ if_false _ _ _ (fits _ _ _ _ lengths widths),
    dict_set-IsValidStore name _ store (upsert_all-put_all chunks rows.rows c (all name c found)).0
        all,
    contents-upsert_all name chunks rows.rows store c found (all name c found),
  )
