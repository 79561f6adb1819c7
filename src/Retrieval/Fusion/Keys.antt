-- ===== src/Retrieval/Fusion/Keys.antt =====
-- The keys of the dictionaries that fusion fills (backend/geolytics/retrieval/hybrid.py).
use geolytics.Prelude.{
  ◌≡◌, ◌≢◌, ◌⊎◌, inl, inr, refl, sym, ap, ◌∙◌, Bool, true, false, Option, none, some, List, [], ◌∷◌,
  if◌then◌else◌, ◌==◌, All, In, ==→eq,
}
use geolytics.Chunking.Base.{ChunkId}
use geolytics.Chunking.Base.Same.{eq_chunk_id, eq→same_id}
use geolytics.Chunking.Ids.{Distinct}
use geolytics.Index.Memory.{dict_get, dict_set}
use geolytics.Index.Memory.Search.{ScoredChunk}
use geolytics.Retrieval.Fusion.{id_of, set_default}

true-false : true ≡ false → ⊥
true-false h = cc

abbrev pub keys : {A : Type 0} → List (ChunkId × A) → List ChunkId
keys [] = []
keys ((id, a) ∷ d) = id ∷ keys d

-- A key that is set: it stays where it is, or comes last.
abbrev pub with_key : ChunkId → List ChunkId → List ChunkId
with_key id [] = id ∷ []
with_key id (j ∷ js) = if j == id then j ∷ js else j ∷ with_key id js

module _ {A : Type 0} where
  pub keys-dict_set :
      (id : ChunkId) (a : A) (d : List (ChunkId × A))
      → keys (dict_set id a d) ≡ with_key id (keys d)
  keys-dict_set id a [] = refl
  keys-dict_set id a ((j, b) ∷ d) = go (j == id) (keys-dict_set id a d)
    where
      go :
          (t : Bool)
          → keys (dict_set id a d) ≡ with_key id (keys d)
          → keys (if t then (j, a) ∷ d else (j, b) ∷ dict_set id a d)
            ≡ (if t then j ∷ keys d else j ∷ with_key id (keys d))
      go true h = refl
      go false h = ap (λ t. j ∷ t) h

  -- An id that has a value is a key already.
  pub with_key-there :
      (id : ChunkId) (d : List (ChunkId × A)) (a : A)
      → dict_get id d ≡ some a
      → with_key id (keys d) ≡ keys d
  with_key-there id [] a h = cc
  with_key-there id ((j, b) ∷ d) a h = go (j == id) (with_key-there id d a) h
    where
      go :
          (t : Bool)
          → (dict_get id d ≡ some a → with_key id (keys d) ≡ keys d)
          → (if t then some b else dict_get id d) ≡ some a
          → (if t then j ∷ keys d else j ∷ with_key id (keys d)) ≡ j ∷ keys d
      go true next h = refl
      go false next h = ap (λ t. j ∷ t) (next h)

  -- A key has a value.
  pub get_key :
      (id : ChunkId) (d : List (ChunkId × A)) → In id (keys d) → (a : A) × (dict_get id d ≡ some a)
  get_key id [] h = absurd h
  get_key id ((j, b) ∷ d) h = go (j == id) refl (get_key id d) h
    where
      go :
          (t : Bool)
          → j == id ≡ t
          → (In id (keys d) → (a : A) × (dict_get id d ≡ some a))
          → (j ≡ id) ⊎ In id (keys d)
          → (a : A) × ((if t then some b else dict_get id d) ≡ some a)
      go true e next h = (b, refl)
      go false e next (inl same) = absurd (true-false (sym (eq→same_id j id same) ∙ e))
      go false e next (inr i) = next i

All-with_key :
    (P : ChunkId → Type 0) (id : ChunkId) (js : List ChunkId)
    → P id
    → All P js
    → All P (with_key id js)
All-with_key P id [] p a = (p, tt)
All-with_key P id (j ∷ js) p a = go (j == id) (All-with_key P id js p a.1)
  where
    go : (t : Bool) → All P (with_key id js) → All P (if t then j ∷ js else j ∷ with_key id js)
    go true h = a
    go false h = (a.0, h)

pub Distinct-with_key : (id : ChunkId) (js : List ChunkId) → Distinct js → Distinct (with_key id js)
Distinct-with_key id [] d = (tt, tt)
Distinct-with_key id (j ∷ js) d = go (j == id) refl (Distinct-with_key id js d.1)
  where
    go :
        (t : Bool)
        → j == id ≡ t
        → Distinct (with_key id js)
        → Distinct (if t then j ∷ js else j ∷ with_key id js)
    go true e h = d
    go false e h = (
      All-with_key (λ k. j ≢ k) id js (λ same. true-false (sym (eq→same_id j id same) ∙ e)) d.0,
      h,
    )

pub In-with_key :
    (id i : ChunkId) (js : List ChunkId)
    → (In i (with_key id js) → (id ≡ i) ⊎ In i js) × ((id ≡ i) ⊎ In i js → In i (with_key id js))
In-with_key id i [] = (λ h. h, λ h. h)
In-with_key id i (j ∷ js) = go (j == id) refl (In-with_key id i js)
  where
    go :
        (t : Bool)
        → j == id ≡ t
        → (In i (with_key id js) → (id ≡ i) ⊎ In i js)
          × ((id ≡ i) ⊎ In i js → In i (with_key id js))
        → (In i (if t then j ∷ js else j ∷ with_key id js) → (id ≡ i) ⊎ ((j ≡ i) ⊎ In i js))
          × ((id ≡ i) ⊎ ((j ≡ i) ⊎ In i js) → In i (if t then j ∷ js else j ∷ with_key id js))
    go true e h = (λ k. inr k, there)
      where
        there : (id ≡ i) ⊎ ((j ≡ i) ⊎ In i js) → (j ≡ i) ⊎ In i js
        there (inl k) = inl (==→eq j id e ∙ k)
        there (inr k) = k
    go false e (before, after) = (back, forth)
      where
        back : (j ≡ i) ⊎ In i (with_key id js) → (id ≡ i) ⊎ ((j ≡ i) ⊎ In i js)
        back (inl k) = inr (inl k)
        back (inr k) = elim (before k) [ inl l ↦ inl l | inr l ↦ inr (inr l) ]

        forth : (id ≡ i) ⊎ ((j ≡ i) ⊎ In i js) → (j ≡ i) ⊎ In i (with_key id js)
        forth (inl k) = inr (after (inl k))
        forth (inr (inl k)) = inl k
        forth (inr (inr k)) = inr (after (inr k))

-- Chunks that stand under their own ids.
abbrev pub Keyed : {W : Type 0} → List (ChunkId × ScoredChunk W) → Type 0
Keyed d = All (λ p. id_of p.1 ≡ p.0) d

module _ {W : Type 0} where
  pub Keyed-dict_set :
      (r : ScoredChunk W) (d : List (ChunkId × ScoredChunk W))
      → Keyed d
      → Keyed (dict_set (id_of r) r d)
  Keyed-dict_set r [] h = (refl, tt)
  Keyed-dict_set r ((j, b) ∷ d) h = go (j == id_of r) refl (Keyed-dict_set r d h.1)
    where
      go :
          (t : Bool)
          → j == id_of r ≡ t
          → Keyed (dict_set (id_of r) r d)
          → Keyed (if t then (j, r) ∷ d else (j, b) ∷ dict_set (id_of r) r d)
      go true e next = (sym (==→eq j (id_of r) e), h.1)
      go false e next = (h.0, next)

  pub Keyed-set_default :
      (r : ScoredChunk W) (d : List (ChunkId × ScoredChunk W))
      → Keyed d
      → Keyed (set_default (id_of r) r d)
  unfolding set_default
  Keyed-set_default r d h = go (dict_get (id_of r) d)
    where
      go :
          (o : Option (ScoredChunk W))
          → Keyed (elim o as (λ x. List (ChunkId × ScoredChunk W)) [
            | none ↦ dict_set (id_of r) r d
            | some q ↦ d
          ])
      go none = Keyed-dict_set r d h
      go (some q) = h

  some_same : {b r : ScoredChunk W} → some b ≡ some r → r ≡ b
  some_same h = cc

  -- What stands under an id has that id.
  pub get-Keyed :
      (id : ChunkId) (d : List (ChunkId × ScoredChunk W)) (r : ScoredChunk W)
      → Keyed d
      → dict_get id d ≡ some r
      → id_of r ≡ id
  get-Keyed id [] r k h = cc
  get-Keyed id ((j, b) ∷ d) r k h = go (j == id) refl (get-Keyed id d r k.1) h
    where
      go :
          (t : Bool)
          → j == id ≡ t
          → (dict_get id d ≡ some r → id_of r ≡ id)
          → (if t then some b else dict_get id d) ≡ some r
          → id_of r ≡ id
      go true e next h = ap id_of (some_same h) ∙ k.0 ∙ ==→eq j id e
      go false e next h = next h
