-- ===== src/Retrieval/Fusion/Totals.antt =====
-- The dictionaries that fusion fills have the ids of the rankings as keys, each once
-- (backend/geolytics/retrieval/hybrid.py).
use geolytics.Prelude.{
  ◌≡◌, ◌⊎◌, inl, inr, refl, sym, ap, ◌∙◌, Option, none, some, List, [], ◌∷◌, In, map,
}
use mathlib.Core.Path.{subst}
use geolytics.Chunking.Base.{ChunkId}
use geolytics.Chunking.Base.Same.{eq_chunk_id}
use geolytics.Chunking.Ids.{Distinct}
use geolytics.Index.Memory.{dict_get, dict_set}
use geolytics.Index.Memory.Search.{ScoredChunk}
use geolytics.Retrieval.Numbers.{Floats}
use geolytics.Retrieval.Fusion.{id_of, set_default, Tally, tally_one, tally_ranking, tally_all}
use geolytics.Retrieval.Fusion.Keys.{
  keys, with_key, keys-dict_set, with_key-there, Distinct-with_key, In-with_key, Keyed,
  Keyed-set_default,
}

-- What the dictionaries of the loop hold: the ids seen so far, each once, in both.
pub record IsTally {W : Type 0} (f : Floats W) (seen : ChunkId → Type 0) (t : Tally f)
    : Type 0 where
  pub same_keys : keys t.totals ≡ keys t.chunks
  pub once : Distinct (keys t.totals)
  pub complete : (id : ChunkId) → seen id → In id (keys t.totals)
  pub sound : (id : ChunkId) → In id (keys t.totals) → seen id
  pub keyed : Keyed t.chunks

module _ {W : Type 0} (f : Floats W) (k : W) where
  keys-set_default :
      (id : ChunkId) (r : ScoredChunk W) (d : List (ChunkId × ScoredChunk W))
      → keys (set_default id r d) ≡ with_key id (keys d)
  unfolding set_default
  keys-set_default id r d = go (dict_get id d) refl
    where
      go :
          (o : Option (ScoredChunk W))
          → dict_get id d ≡ o
          → keys (elim o as (λ x. List (ChunkId × ScoredChunk W)) [
            | none ↦ dict_set id r d
            | some q ↦ d
          ])
            ≡ with_key id (keys d)
      go none e = keys-dict_set id r d
      go (some q) e = sym (with_key-there id d q e)

  tally_one-IsTally :
      (seen : ChunkId → Type 0) (r : ScoredChunk W) (t : Tally f)
      → IsTally f seen t
      → IsTally f (λ id. (id_of r ≡ id) ⊎ seen id) (tally_one f k r t)
  unfolding tally_one
  tally_one-IsTally seen r t h = record {
    same_keys =
        totals_keys
        ∙ ap (with_key (id_of r)) h.same_keys
        ∙ sym (keys-set_default (id_of r) r t.chunks);
    once = subst Distinct (sym totals_keys) (Distinct-with_key (id_of r) (keys t.totals) h.once);
    complete = λ id s.
        subst (In id) (sym totals_keys)
          ((In-with_key (id_of r) id (keys t.totals)).1 (complete_there id s));
    keyed = Keyed-set_default r t.chunks h.keyed;
    sound = λ id i.
        sound_there id ((In-with_key (id_of r) id (keys t.totals)).0 (subst (In id) totals_keys i));
  }
    where
      totals_keys : keys (tally_one f k r t).totals ≡ with_key (id_of r) (keys t.totals)
      totals_keys = keys-dict_set (id_of r) _ t.totals

      complete_there :
          (id : ChunkId) → (id_of r ≡ id) ⊎ seen id → (id_of r ≡ id) ⊎ In id (keys t.totals)
      complete_there id (inl e) = inl e
      complete_there id (inr s) = inr (h.complete id s)

      sound_there :
          (id : ChunkId) → (id_of r ≡ id) ⊎ In id (keys t.totals) → (id_of r ≡ id) ⊎ seen id
      sound_there id (inl e) = inl e
      sound_there id (inr s) = inr (h.sound id s)

  -- Whether a ranking Names an id.
  abbrev pub Names : List (ScoredChunk W) → ChunkId → Type 0
  Names rs id = In id (map id_of rs)

  widen :
      (seen wider : ChunkId → Type 0) (t : Tally f)
      → ((id : ChunkId) → seen id → wider id)
      → ((id : ChunkId) → wider id → seen id)
      → IsTally f seen t
      → IsTally f wider t
  widen seen wider t there back h = record {
    same_keys = h.same_keys;
    once = h.once;
    keyed = h.keyed;
    complete = λ id w. h.complete id (back id w);
    sound = λ id i. there id (h.sound id i);
  }

  regroup : {A B C : Type 0} → A ⊎ (B ⊎ C) → (B ⊎ A) ⊎ C
  regroup (inl a) = inl (inr a)
  regroup (inr (inl b)) = inl (inl b)
  regroup (inr (inr c)) = inr c

  ungroup : {A B C : Type 0} → (B ⊎ A) ⊎ C → A ⊎ (B ⊎ C)
  ungroup (inl (inr a)) = inl a
  ungroup (inl (inl b)) = inr (inl b)
  ungroup (inr c) = inr (inr c)

  right : {A : Type 0} → A → ⊥ ⊎ A
  right a = inr a

  left_out : {A : Type 0} → ⊥ ⊎ A → A
  left_out (inl e) = absurd e
  left_out (inr a) = a

  tally_ranking-IsTally :
      (seen : ChunkId → Type 0) (rs : List (ScoredChunk W)) (t : Tally f)
      → IsTally f seen t
      → IsTally f (λ id. Names rs id ⊎ seen id) (tally_ranking f k rs t)
  unfolding tally_ranking
  tally_ranking-IsTally seen [] t h =
      widen seen (λ id. ⊥ ⊎ seen id) t (λ id. right) (λ id. left_out) h
  tally_ranking-IsTally seen (r ∷ rs) t h =
      widen (λ id. Names rs id ⊎ ((id_of r ≡ id) ⊎ seen id))
        (λ id. ((id_of r ≡ id) ⊎ Names rs id) ⊎ seen id) (tally_ranking f k rs (tally_one f k r t))
        (λ id. regroup) (λ id. ungroup)
        (tally_ranking-IsTally (λ id. (id_of r ≡ id) ⊎ seen id) rs (tally_one f k r t)
          (tally_one-IsTally seen r t h))

  -- Whether one of the rankings Names an id.
  abbrev pub NamedIn : List (List (ScoredChunk W)) → ChunkId → Type 0
  NamedIn [] id = ⊥
  NamedIn (rs ∷ rankings) id = Names rs id ⊎ NamedIn rankings id

  pub tally_all-IsTally :
      (seen : ChunkId → Type 0) (rankings : List (List (ScoredChunk W))) (t : Tally f)
      → IsTally f seen t
      → IsTally f (λ id. NamedIn rankings id ⊎ seen id) (tally_all f k rankings t)
  unfolding tally_all
  tally_all-IsTally seen [] t h = widen seen (λ id. ⊥ ⊎ seen id) t (λ id. right) (λ id. left_out) h
  tally_all-IsTally seen (rs ∷ rankings) t h =
      widen (λ id. NamedIn rankings id ⊎ (Names rs id ⊎ seen id))
        (λ id. (Names rs id ⊎ NamedIn rankings id) ⊎ seen id)
        (tally_all f k rankings (tally_ranking f k rs t)) (λ id. regroup) (λ id. ungroup)
        (tally_all-IsTally (λ id. Names rs id ⊎ seen id) rankings (tally_ranking f k rs t)
          (tally_ranking-IsTally seen rs t h))
