-- ===== src/Chunking/Base/Same.antt =====
-- When two chunk ids are the same text (backend/geolytics/chunking/base.py).
use geolytics.Prelude.{Bool, true, ◌&&◌, ◌≡◌, refl, ap, ◌∙◌, Eq, ◌==◌, eq_ℕ, eq_string, arith}
use mathlib.Core.Path.{subst}
use geolytics.Prelude.Text.{text_eq, text_eq→eq, text_eq_refl}
use geolytics.Chunking.Base.{ChunkId}

abbrev pub same_id : ChunkId → ChunkId → Bool
same_id a b =
    a.doc_id == b.doc_id
    && (a.strategy == b.strategy && (a.ordinal == b.ordinal && text_eq a.digest b.digest))

and_both : (b c : Bool) → b && c ≡ true → (b ≡ true) × (c ≡ true)
and_both b c h = (ground arith, ground arith)

id_cong :
    {a b : ChunkId}
    → a.doc_id ≡ b.doc_id
    → a.strategy ≡ b.strategy
    → a.ordinal ≡ b.ordinal
    → a.digest ≡ b.digest
    → a ≡ b
id_cong {a} {b} d s o t =
    ap (λ x. record a { doc_id = x }) d
    ∙ ap (λ x. record a { doc_id = b.doc_id; strategy = x }) s
    ∙ ap (λ x. record a { doc_id = b.doc_id; strategy = b.strategy; ordinal = x }) o
    ∙ ap (λ x. record b { digest = x }) t

pub same_id→eq : (a b : ChunkId) → same_id a b ≡ true → a ≡ b
same_id→eq a b h =
    let (d, r) = and_both (a.doc_id == b.doc_id) _ h in
    let (s, q) = and_both (a.strategy == b.strategy) _ r in
    let (o, t) = and_both (a.ordinal == b.ordinal) _ q in
    id_cong (((eq_string.same_iff) a.doc_id b.doc_id).0 d)
      ((eq_string.same_iff a.strategy b.strategy).0 s) ((eq_ℕ.same_iff a.ordinal b.ordinal).0 o)
      (text_eq→eq a.digest b.digest t)

same_id_refl : (a : ChunkId) → same_id a a ≡ true
same_id_refl a =
    rw
      (
        (eq_string.same_iff a.doc_id a.doc_id).1 refl,
        (eq_string.same_iff a.strategy a.strategy).1 refl,
        (eq_ℕ.same_iff a.ordinal a.ordinal).1 refl,
        text_eq_refl a.digest,
      )
      refl

pub eq→same_id : (a b : ChunkId) → a ≡ b → same_id a b ≡ true
eq→same_id a b e = subst (λ c. same_id a c ≡ true) e (same_id_refl a)

instance abbrev pub eq_chunk_id : Eq ChunkId
eq_chunk_id = record { same = same_id; same_iff = λ a b. (same_id→eq a b, eq→same_id a b) }
