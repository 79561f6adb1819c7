-- ===== src/Index/Memory/Positions.antt =====
-- The positions that the index of a collection tells (backend/geolytics/index/memory.py).
use geolytics.Prelude.{
  ℕ, zero, suc, ◌+◌, ◌≡◌, ◌⊎◌, refl, sym, ap, ◌∙◌, Bool, true, false, Option, none, some, List, [],
  ◌∷◌, ◌++◌, if◌then◌else◌, ◌==◌, length, arith, inl, inr, if_false, swap_tests, same_tests, apart,
}
use geolytics.Chunking.Base.{ChunkId, Chunk}
use geolytics.Chunking.Base.Same.{eq_chunk_id, same_id→eq}
use geolytics.Index.Memory.{dict_get, dict_set, set_elem}

-- The position of the chunk that has an id.
abbrev pub position : ChunkId → List Chunk → Option ℕ
position id [] = none
position id (c ∷ cs) =
    let rest = position id cs in
    if c.chunk_id == id then some 0 else elim rest [ none ↦ none | some i ↦ some (suc i) ]

-- The entries of the index for chunks from a position on.
abbrev pub positions : ℕ → List Chunk → List (ChunkId × ℕ)
positions k [] = []
positions k (c ∷ cs) = (c.chunk_id, k) ∷ positions (suc k) cs

abbrev pub shift : ℕ → Option ℕ → Option ℕ
shift k none = none
shift k (some i) = some (k + i)

pub dict_get-positions :
    (id : ChunkId) (k : ℕ) (cs : List Chunk)
    → dict_get id (positions k cs) ≡ shift k (position id cs)
dict_get-positions id k [] = refl
dict_get-positions id k (c ∷ cs) =
    go (c.chunk_id == id) (position id cs) (dict_get-positions id (suc k) cs)
  where
    go :
        (b : Bool) (o : Option ℕ)
        → dict_get id (positions (suc k) cs) ≡ shift (suc k) o
        → (if b then some k else dict_get id (positions (suc k) cs))
          ≡ shift k (if b then some 0 else elim o [ none ↦ none | some i ↦ some (suc i) ])
    go true o h = ap some (omega arith)
    go false none h = h
    go false (some i) h = h ∙ ap some (omega arith)

pub positions-append :
    (k : ℕ) (cs : List Chunk) (c : Chunk)
    → positions k (cs ++ c ∷ []) ≡ positions k cs ++ (c.chunk_id, k + length cs) ∷ []
positions-append k [] c = ap (λ n. (c.chunk_id, n) ∷ []) (omega arith)
positions-append k (d ∷ cs) c =
    ap (λ t. (d.chunk_id, k) ∷ t)
      (positions-append (suc k) cs c
        ∙ ap (λ n. positions (suc k) cs ++ (c.chunk_id, n) ∷ []) (omega arith))

no_position :
    (id : ChunkId) (d : Chunk) (cs : List Chunk)
    → position id (d ∷ cs) ≡ none
    → (d.chunk_id == id ≡ false) × (position id cs ≡ none)
no_position id d cs h = go (d.chunk_id == id) (position id cs) h
  where
    go :
        (b : Bool) (o : Option ℕ)
        → (if b then some 0 else elim o [ none ↦ none | some i ↦ some (suc i) ]) ≡ none
        → (b ≡ false) × (o ≡ none)
    go true o h = cc
    go false none h = (refl, refl)
    go false (some i) h = cc

some-position :
    (id : ChunkId) (d : Chunk) (cs : List Chunk) (i : ℕ)
    → position id (d ∷ cs) ≡ some i
    → ((d.chunk_id == id ≡ true) × (i ≡ 0))
      ⊎ ((d.chunk_id == id ≡ false) × (j : ℕ) × (position id cs ≡ some j) × (i ≡ suc j))
some-position id d cs i h = go (d.chunk_id == id) (position id cs) h
  where
    go :
        (b : Bool) (o : Option ℕ)
        → (if b then some 0 else elim o [ none ↦ none | some i ↦ some (suc i) ]) ≡ some i
        → ((b ≡ true) × (i ≡ 0)) ⊎ ((b ≡ false) × (j : ℕ) × (o ≡ some j) × (i ≡ suc j))
    go true o h = inl (refl, ground (arith, h))
    go false none h = cc
    go false (some j) h = inr (refl, j, refl, ground (arith, h))

pub dict_set-positions :
    (id : ChunkId) (a k : ℕ) (cs : List Chunk)
    → position id cs ≡ none
    → dict_set id a (positions k cs) ≡ positions k cs ++ (id, a) ∷ []
dict_set-positions id a k [] h = refl
dict_set-positions id a k (d ∷ cs) h =
    if_false _ _ _ (no_position id d cs h).0
    ∙ ap (λ t. (d.chunk_id, k) ∷ t) (dict_set-positions id a (suc k) cs (no_position id d cs h).1)

pub positions-set_elem :
    (c : Chunk) (k : ℕ) (cs : List Chunk) (i : ℕ)
    → position c.chunk_id cs ≡ some i
    → positions k (set_elem cs i c) ≡ positions k cs
positions-set_elem c k [] i n = cc
positions-set_elem c k (d ∷ cs) i n = elim (some-position c.chunk_id d cs i n) [
  | inl (same, e) ↦
      rw e (ap (λ a. (a, k) ∷ positions (suc k) cs) (sym (same_id→eq d.chunk_id c.chunk_id same)))
  | inr (differs, j, m, e) ↦
      rw e (ap (λ t. (d.chunk_id, k) ∷ t) (positions-set_elem c (suc k) cs j m))
]

pub length-set_elem :
    {A : Type 0} (xs : List A) (i : ℕ) (a : A) → length (set_elem xs i a) ≡ length xs
length-set_elem [] i a = refl
length-set_elem (x ∷ xs) zero a = refl
length-set_elem (x ∷ xs) (suc i) a = ap suc (length-set_elem xs i a)

module _ {V : Type 0} where
  -- What chunks and their rows hold for an id.
  abbrev pub entry : ChunkId → List Chunk → List V → Option (Chunk × V)
  entry id [] vs = none
  entry id (c ∷ cs) [] = none
  entry id (c ∷ cs) (v ∷ vs) = if c.chunk_id == id then some (c, v) else entry id cs vs

  -- A map with one more entry.
  abbrev pub put : Chunk → V → (ChunkId → Option (Chunk × V)) → ChunkId → Option (Chunk × V)
  put c v m id = if c.chunk_id == id then some (c, v) else m id

  abbrev pub put_all :
      List Chunk → List V → (ChunkId → Option (Chunk × V)) → ChunkId → Option (Chunk × V)
  put_all [] vs m = m
  put_all (c ∷ cs) [] m = m
  put_all (c ∷ cs) (v ∷ vs) m = put_all cs vs (put c v m)

  pub entry-append :
      (c : Chunk) (v : V) (cs : List Chunk) (vs : List V) (id : ChunkId)
      → length vs ≡ length cs
      → position c.chunk_id cs ≡ none
      → entry id (cs ++ c ∷ []) (vs ++ v ∷ []) ≡ put c v (λ j. entry j cs vs) id
  entry-append c v [] [] id h n = refl
  entry-append c v [] (w ∷ vs) id h n = absurd (omega arith)
  entry-append c v (d ∷ cs) [] id h n = absurd (omega arith)
  entry-append c v (d ∷ cs) (w ∷ vs) id h n =
      let (differs, rest) = no_position c.chunk_id d cs n in
      ap (λ o. if d.chunk_id == id then some (d, w) else o)
        (entry-append c v cs vs id (omega arith) rest)
      ∙ swap_tests (d.chunk_id == id) (c.chunk_id == id) _ _ _
          (apart d.chunk_id c.chunk_id id differs)

  pub entry-set_elem :
      (c : Chunk) (v : V) (cs : List Chunk) (vs : List V) (id : ChunkId) (i : ℕ)
      → length vs ≡ length cs
      → position c.chunk_id cs ≡ some i
      → entry id (set_elem cs i c) (set_elem vs i v) ≡ put c v (λ j. entry j cs vs) id
  entry-set_elem c v [] vs id i h n = cc
  entry-set_elem c v (d ∷ cs) [] id i h n = absurd (omega arith)
  entry-set_elem c v (d ∷ cs) (w ∷ vs) id i h n = elim (some-position c.chunk_id d cs i n) [
    | inl (same, e) ↦ rw e (
        same_tests (c.chunk_id == id) (d.chunk_id == id) _ _ _
          (ap (λ a. a == id) (same_id→eq d.chunk_id c.chunk_id same)))
    | inr (differs, j, m, e) ↦ rw e (
        ap (λ o. if d.chunk_id == id then some (d, w) else o)
          (entry-set_elem c v cs vs id j (omega arith) m)
        ∙ swap_tests (d.chunk_id == id) (c.chunk_id == id) _ _ _
            (apart d.chunk_id c.chunk_id id differs))
  ]
