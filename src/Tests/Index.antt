-- ===== src/Tests/Index.antt =====
-- The store in memory and hybrid retrieval at concrete values (backend/geolytics/index/memory.py and
-- backend/geolytics/retrieval/hybrid.py). Rows and scores are natural numbers.
use geolytics.Prelude.{
  ℕ, suc, ◌+◌, ◌*◌, ◌-◌, ◌<◌, ◌≤◌, ◌≡◌, ◌⊎◌, refl, ap, String, none, some, List, [], ◌∷◌, arith,
  map, All, In, length, ltb, ◌==◌, eq_ℕ, eq_string, if◌then◌else◌,
}
use geolytics.Prelude.Text.{codes}
use geolytics.Chunking.Base.{ChunkId, Chunk}
use geolytics.Chunking.Base.Same.{eq_chunk_id}
use geolytics.Chunking.Ids.{Distinct}
use geolytics.Index.Numbers.{Numpy}
use geolytics.Index.Memory.{dot, Collection, Store, ok, dict_set, upsert}
use geolytics.Index.Memory.Search.{ScoredChunk, search}
use geolytics.Index.Memory.Entries.{IsValid, put_all}
use geolytics.Index.Memory.Contents.{IsValidStore, contents, upsert-contents, dict_set-IsValidStore}
use geolytics.Index.Memory.Best.{IsIndexing, Succeeds}
use geolytics.Index.Memory.Hits.{Ranked, IsKept, search-IsKept}
use geolytics.Retrieval.Numbers.{Floats}
use geolytics.Retrieval.Fusion.{id_of}
use geolytics.Retrieval.Retrievers.{HybridRetriever, rrf, hybrid_retrieve}
use geolytics.Retrieval.Retrievers.Top.{hybrid_retrieve-top}

abbrev count_up : ℕ → List ℕ → List ℕ
count_up n [] = []
count_up n (x ∷ xs) = n ∷ count_up (suc n) xs

length-count_up : (n : ℕ) (xs : List ℕ) → length (count_up n xs) ≡ length xs
length-count_up n [] = refl
length-count_up n (x ∷ xs) = ap suc (length-count_up (suc n) xs)

below : (n m : ℕ) (xs : List ℕ) → n + length xs ≤ m → All (λ i. i < m) (count_up n xs)
below n m [] h = tt
below n m (x ∷ xs) h = (omega arith, below (suc n) m xs (omega arith))

-- A partition and a sort that leave everything in place.
abbrev numpy : Numpy ℕ ℕ
numpy = record {
  zero = 0;
  positive = λ w. ltb 0 w;
  times = λ a b. a * b;
  over = λ a b. a;
  negative = λ a. a;
  dot = λ a b. a * b;
  minus = λ a b. a - b;
  norm = λ a. a;
  argpartition = λ a k. count_up 0 a;
  argsort = count_up 0;
}

numpy-IsIndexing : IsIndexing numpy
numpy-IsIndexing = record {
  partition_length = λ xs k. length-count_up 0 xs;
  partition_within = λ xs k. below 0 (length xs) xs (omega arith);
  sort_length = length-count_up 0;
  sort_within = λ xs. below 0 (length xs) xs (omega arith);
}

abbrev id : ℕ → ChunkId
id n = record { doc_id = "guide"; strategy = "sentence"; ordinal = n; digest = [] }

abbrev piece : ℕ → Chunk
piece n = record {
  chunk_id = id n;
  doc_id = "guide";
  text = codes "one";
  ordinal = n;
  start_char = 0;
  end_char = 3;
  heading_path = [];
  parent_id = none;
  parent_text = none;
}

abbrev pages : Collection ℕ
pages = record {
  dim = 1;
  metric = dot;
  chunks = piece 0 ∷ piece 1 ∷ [];
  vectors = 5 ∷ 3 ∷ [];
  index = (id 0, 0) ∷ (id 1, 1) ∷ [];
}

pages-IsValid : IsValid pages
pages-IsValid = record { indexed = refl; matched = refl }

abbrev kept_store : Store ℕ
kept_store = dict_set "pages" pages []

kept_store-IsValidStore : IsValidStore kept_store
kept_store-IsValidStore = dict_set-IsValidStore "pages" pages [] pages-IsValid (λ name c h. cc)

-- The second of the chunks is there already.
upsert-contents_example :
    (kept_store' : Store ℕ) × (upsert "pages"
        (piece 2 ∷ piece 1 ∷ [])
        (record { rows = 7 ∷ 8 ∷ []; width = 1 })
        kept_store
      ≡ ok kept_store')
    × IsValidStore kept_store'
    × ((other : String) (i : ChunkId)
        → contents kept_store' other i ≡ (
            if "pages" == other
            then put_all (piece 2 ∷ piece 1 ∷ []) (7 ∷ 8 ∷ []) (contents kept_store "pages") i
            else contents kept_store other i))
upsert-contents_example =
    upsert-contents "pages" (piece 2 ∷ piece 1 ∷ []) (record { rows = 7 ∷ 8 ∷ []; width = 1 })
      kept_store pages kept_store-IsValidStore refl refl refl

search-IsKept_example : Succeeds (search numpy "pages" 2 1 (some dot) kept_store) (λ hs.
    (length hs ≡ 1)
    × Ranked 1 hs
    × All (IsKept numpy numpy-IsIndexing dot 2 pages.chunks pages.vectors) hs)
search-IsKept_example =
    search-IsKept numpy numpy-IsIndexing "pages" dot 2 1 kept_store pages refl pages-IsValid
      (λ h. cc)

abbrev floats : Floats ℕ
floats = record {
  zero = 0;
  one = 1;
  of_nat = λ n. n;
  negative = λ a. a;
  plus = λ a b. a + b;
  minus = λ a b. a - b;
  times = λ a b. a * b;
  over = λ a b. a;
  equal = λ a b. a == b;
  less = ltb;
  id_less = λ i j. ltb i.ordinal j.ordinal;
}

abbrev hit : ℕ → ℕ → ScoredChunk ℕ
hit n rank = record { chunk = piece n; score = 5; rank = rank }

abbrev hybrid : HybridRetriever ℕ
hybrid = record {
  dense = λ query k. ok (hit 0 1 ∷ hit 1 2 ∷ []);
  lexical = λ query k. ok (hit 1 1 ∷ hit 2 2 ∷ []);
  method = rrf;
  alpha = 0;
  rrf_k = 60;
  candidate_multiplier = 4;
}

hybrid_retrieve-top_example :
    (rs : List (ScoredChunk ℕ)) × (hybrid_retrieve floats hybrid (codes "one") 2 ≡ ok rs)
    × (length rs ≤ 2)
    × Ranked 1 rs
    × Distinct (map id_of rs)
    × All (λ i. In i (id 0 ∷ id 1 ∷ []) ⊎ In i (id 1 ∷ id 2 ∷ [])) (map id_of rs)
hybrid_retrieve-top_example =
    hybrid_retrieve-top floats hybrid (codes "one") 2 (hit 0 1 ∷ hit 1 2 ∷ [])
      (hit 1 1 ∷ hit 2 2 ∷ []) refl refl refl
