-- ===== src/Retrieval/Order/Keys.antt =====
-- Sorting keeps what is sorted (backend/geolytics/retrieval).
use geolytics.Prelude.{
  ℕ, suc, ◌≡◌, ◌≢◌, ◌⊎◌, inl, inr, refl, sym, ap, ◌∙◌, Bool, true, false, List, [], ◌∷◌,
  if◌then◌else◌, All, In, length, map,
}
use geolytics.Chunking.Base.{ChunkId}
use geolytics.Chunking.Ids.{Distinct}
use geolytics.Index.Memory.Search.{ScoredChunk}
use geolytics.Index.Memory.Hits.{Ranked}
use geolytics.Retrieval.Numbers.{Floats}
use geolytics.Retrieval.Order.{renumber_from, renumber, precedes, insert_item, sort_items}

-- The ids of items.
abbrev pub ids_by : {A : Type 0} → (A → ChunkId) → List A → List ChunkId
ids_by id_of [] = []
ids_by id_of (x ∷ items) = id_of x ∷ ids_by id_of items

module _ {W A : Type 0} (f : Floats W) (key : A → ChunkId × W) (id_of : A → ChunkId) where
  abbrev idents : List A → List ChunkId
  idents = ids_by id_of

  -- A choice between two orders of an item and the rest.
  either_way :
      (P : List A → Type 0) (b : Bool) (xs ys : List A) → P xs → P ys → P (if b then xs else ys)
  either_way P true xs ys p q = p
  either_way P false xs ys p q = q

  All-insert_item :
      (P : ChunkId → Type 0) (x : A) (items : List A)
      → P (id_of x)
      → All P (idents items)
      → All P (idents (insert_item f key x items))
  unfolding insert_item
  All-insert_item P x [] p a = (p, tt)
  All-insert_item P x (y ∷ items) p a =
      either_way (λ t. All P (idents t)) (precedes f (key y) (key x)) _ _
        (a.0, All-insert_item P x items p a.1) (p, a)

  Distinct-insert_item :
      (x : A) (items : List A)
      → All (λ j. id_of x ≢ j) (idents items)
      → Distinct (idents items)
      → Distinct (idents (insert_item f key x items))
  unfolding insert_item
  Distinct-insert_item x [] n d = (tt, tt)
  Distinct-insert_item x (y ∷ items) n d =
      either_way (λ t. Distinct (idents t)) (precedes f (key y) (key x)) _ _
        (
          All-insert_item (λ j. id_of y ≢ j) x items (λ e. n.0 (sym e)) d.0,
          Distinct-insert_item x items n.1 d.1,
        )
        (n, d)

  All-sort_items :
      (P : ChunkId → Type 0) (items : List A)
      → All P (idents items)
      → All P (idents (sort_items f key items))
  unfolding sort_items
  All-sort_items P [] a = tt
  All-sort_items P (x ∷ items) a =
      All-insert_item P x (sort_items f key items) a.0 (All-sort_items P items a.1)

  pub Distinct-sort_items :
      (items : List A) → Distinct (idents items) → Distinct (idents (sort_items f key items))
  unfolding sort_items
  Distinct-sort_items [] d = tt
  Distinct-sort_items (x ∷ items) d =
      Distinct-insert_item x (sort_items f key items) (All-sort_items (λ j. id_of x ≢ j) items d.0)
        (Distinct-sort_items items d.1)

  In-insert_item :
      (x : A) (items : List A) (a : A) → (x ≡ a) ⊎ In a items → In a (insert_item f key x items)
  unfolding insert_item
  In-insert_item x [] a (inl e) = inl e
  In-insert_item x [] a (inr e) = absurd e
  In-insert_item x (y ∷ items) a h =
      either_way (In a) (precedes f (key y) (key x)) _ _ (later (In-insert_item x items a) h) h
    where
      later :
          ((x ≡ a) ⊎ In a items → In a (insert_item f key x items))
          → (x ≡ a) ⊎ ((y ≡ a) ⊎ In a items)
          → (y ≡ a) ⊎ In a (insert_item f key x items)
      later next (inl e) = inr (next (inl e))
      later next (inr (inl e)) = inl e
      later next (inr (inr i)) = inr (next (inr i))

  insert_item-In :
      (x : A) (items : List A) (a : A) → In a (insert_item f key x items) → (x ≡ a) ⊎ In a items
  unfolding insert_item
  insert_item-In x [] a h = h
  insert_item-In x (y ∷ items) a h = go (precedes f (key y) (key x)) (insert_item-In x items a) h
    where
      go :
          (b : Bool)
          → (In a (insert_item f key x items) → (x ≡ a) ⊎ In a items)
          → In a (if b then y ∷ insert_item f key x items else x ∷ y ∷ items)
          → (x ≡ a) ⊎ ((y ≡ a) ⊎ In a items)
      go false next h = h
      go true next (inl e) = inr (inl e)
      go true next (inr i) = past (next i)
        where
          past : (x ≡ a) ⊎ In a items → (x ≡ a) ⊎ ((y ≡ a) ⊎ In a items)
          past (inl e) = inl e
          past (inr j) = inr (inr j)

  -- Sorting keeps the items.
  pub In-sort_items : (items : List A) (a : A) → In a items → In a (sort_items f key items)
  unfolding sort_items
  In-sort_items [] a h = h
  In-sort_items (x ∷ items) a (inl e) = In-insert_item x (sort_items f key items) a (inl e)
  In-sort_items (x ∷ items) a (inr i) =
      In-insert_item x (sort_items f key items) a (inr (In-sort_items items a i))

  pub sort_items-In : (items : List A) (a : A) → In a (sort_items f key items) → In a items
  unfolding sort_items
  sort_items-In [] a h = h
  sort_items-In (x ∷ items) a h =
      go (sort_items-In items a) (insert_item-In x (sort_items f key items) a h)
    where
      go :
          (In a (sort_items f key items) → In a items)
          → (x ≡ a) ⊎ In a (sort_items f key items)
          → (x ≡ a) ⊎ In a items
      go next (inl e) = inl e
      go next (inr i) = inr (next i)

  length-insert_item :
      (x : A) (items : List A) → length (insert_item f key x items) ≡ suc (length items)
  unfolding insert_item
  length-insert_item x [] = refl
  length-insert_item x (y ∷ items) =
      either_way (λ t. length t ≡ suc (suc (length items))) (precedes f (key y) (key x)) _ _
        (ap suc (length-insert_item x items)) refl

  pub length-sort_items : (items : List A) → length (sort_items f key items) ≡ length items
  unfolding sort_items
  length-sort_items [] = refl
  length-sort_items (x ∷ items) =
      length-insert_item x (sort_items f key items) ∙ ap suc (length-sort_items items)

renumber_from-Ranked :
    {W : Type 0} (n : ℕ) (rs : List (ScoredChunk W)) → Ranked n (renumber_from n rs)
unfolding renumber_from
renumber_from-Ranked n [] = tt
renumber_from-Ranked n (r ∷ rs) = (refl, renumber_from-Ranked (suc n) rs)

pub renumber-Ranked : {W : Type 0} (rs : List (ScoredChunk W)) → Ranked 1 (renumber rs)
unfolding renumber
renumber-Ranked rs = renumber_from-Ranked 1 rs

renumber_from-chunks :
    {W : Type 0} (n : ℕ) (rs : List (ScoredChunk W))
    → map (λ r. r.chunk) (renumber_from n rs) ≡ map (λ r. r.chunk) rs
unfolding renumber_from
renumber_from-chunks n [] = refl
renumber_from-chunks n (r ∷ rs) = ap (λ t. r.chunk ∷ t) (renumber_from-chunks (suc n) rs)

pub renumber-chunks :
    {W : Type 0} (rs : List (ScoredChunk W))
    → map (λ r. r.chunk) (renumber rs) ≡ map (λ r. r.chunk) rs
unfolding renumber
renumber-chunks rs = renumber_from-chunks 1 rs
