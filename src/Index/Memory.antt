-- ===== src/Index/Memory.antt =====
-- The vector store in memory (backend/geolytics/index/memory.py). A dictionary is the list of its
-- entries; NumPy is a parameter.
pub mod Positions
pub mod Entries
pub mod Contents
pub mod Search
pub mod Best
pub mod Hits
use geolytics.Prelude.{
  ℕ, zero, suc, ◌+◌, ◌-◌, String, Bool, true, false, not, ◌||◌, Option, none, some, List, [], ◌∷◌,
  ◌++◌, if◌then◌else◌, Eq, ◌==◌, eq_ℕ, eq_string, length, take, map, leb,
}
use Prim.Native.Nat.{min}
use geolytics.Chunking.Base.{ChunkId, Chunk}
use geolytics.Chunking.Base.Same.{eq_chunk_id}
use geolytics.Index.Numbers.{Numpy}

-- Any other name is a `ValueError` of `score_matrix`.
pub data Metric : Type 0 where
  cosine dot euclidean unknown : Metric

pub data Error : Type 0 where
  key_error value_error index_error : Error

pub data Result {ℓ} (A : Type ℓ) : Type ℓ where
  err : Error → Result A
  ok : A → Result A

infixl 5 ◌>>=◌
abbrev pub ◌>>=◌ {ℓ κ} : {A : Type ℓ} {B : Type κ} → Result A → (A → Result B) → Result B
err e >>= next = err e
ok a >>= next = next a

module _ {K : Type 0} {A : Type 0} ⦃e : Eq K⦄ where
  -- `d.get(k)`
  abbrev pub dict_get : K → List (K × A) → Option A
  dict_get k [] = none
  dict_get k ((j, a) ∷ d) = if j == k then some a else dict_get k d

  -- `d[k] = a`
  abbrev pub dict_set : K → A → List (K × A) → List (K × A)
  dict_set k a [] = (k, a) ∷ []
  dict_set k a ((j, b) ∷ d) = if j == k then (j, a) ∷ d else (j, b) ∷ dict_set k a d

  -- `d.pop(k, None)`
  abbrev pub dict_pop : K → List (K × A) → List (K × A)
  dict_pop k [] = []
  dict_pop k ((j, b) ∷ d) = if j == k then d else (j, b) ∷ dict_pop k d

-- `xs[i]`, and `xs[i] = x`. The source's indices are in range.
abbrev pub get_elem? : {A : Type 0} → List A → ℕ → Option A
get_elem? [] i = none
get_elem? (x ∷ xs) zero = some x
get_elem? (x ∷ xs) (suc i) = get_elem? xs i

abbrev pub set_elem : {A : Type 0} → List A → ℕ → A → List A
set_elem [] i a = []
set_elem (x ∷ xs) zero a = a ∷ xs
set_elem (x ∷ xs) (suc i) a = x ∷ set_elem xs i a

module _ (V : Type 0) where
  -- `vectors` is `None` where it has no rows.
  pub record Collection : Type 0 where
    pub dim : ℕ
    pub metric : Metric
    pub chunks : List Chunk
    pub vectors : List V
    pub index : List (ChunkId × ℕ)

  abbrev pub Store : Type 0
  Store = List (String × Collection)

  -- The array that `upsert` is given: its rows, and how long each is.
  pub record Rows : Type 0 where
    pub rows : List V
    pub width : ℕ

module _ {V : Type 0} where
  unfoldable pub create_collection : String → ℕ → Metric → Store V → Store V
  create_collection name dim metric store =
      dict_set name (record { dim = dim; metric = metric; chunks = []; vectors = []; index = [] })
        store

  unfoldable pub drop_collection : String → Store V → Store V
  drop_collection = dict_pop

  -- `_require`.
  unfoldable pub require : String → Store V → Result (Collection V)
  require name store = elim (dict_get name store) [ none ↦ err key_error | some c ↦ ok c ]

  -- A chunk with a new id, and one whose id is at a position.
  unfoldable pub inserted : Chunk → V → Collection V → Collection V
  inserted chunk vector c = record c {
    index = dict_set chunk.chunk_id (length c.chunks) c.index;
    chunks = c.chunks ++ chunk ∷ [];
    vectors = c.vectors ++ vector ∷ [];
  }

  unfoldable pub replaced : Chunk → V → Collection V → ℕ → Collection V
  replaced chunk vector c existing = record c {
    chunks = set_elem c.chunks existing chunk;
    vectors = set_elem c.vectors existing vector;
  }

  -- One turn of the loop of `upsert`.
  unfoldable pub upsert_one : Chunk → V → Collection V → Collection V
  upsert_one chunk vector c = elim (dict_get chunk.chunk_id c.index) [
    | none ↦ inserted chunk vector c
    | some existing ↦ replaced chunk vector c existing
  ]

  unfoldable pub upsert_all : List Chunk → List V → Collection V → Collection V
  upsert_all [] vectors c = c
  upsert_all (chunk ∷ chunks) [] c = c
  upsert_all (chunk ∷ chunks) (vector ∷ vectors) c =
      upsert_all chunks vectors (upsert_one chunk vector c)

  checked_upsert : String → List Chunk → Rows V → Store V → Collection V → Result (Store V)
  checked_upsert name chunks vectors store c =
      if not (length chunks == length vectors.rows) || not (vectors.width == c.dim)
      then err value_error
      else ok (dict_set name (upsert_all chunks vectors.rows c) store)

  upsert_in : String → List Chunk → Rows V → Store V → Result (Collection V) → Result (Store V)
  upsert_in name chunks vectors store (err e) = err e
  upsert_in name chunks vectors store (ok c) = checked_upsert name chunks vectors store c

  unfoldable pub upsert : String → List Chunk → Rows V → Store V → Result (Store V)
  unfolding checked_upsert upsert_in
  upsert name chunks vectors store = upsert_in name chunks vectors store (require name store)

  unfoldable pub count : String → Store V → Result ℕ
  count name store = elim (require name store) [ err e ↦ err e | ok c ↦ ok (length c.chunks) ]
