-- ===== src/Collector/Ledger/Orphans.antt =====
-- What a call makes of the sources that nobody owns, and the byte limit that the engine has tested.
use offline_reels.Base.{
  refl, ℕ, ◌+◌, ◌≡◌, true, false, Option, none, some, String, List, [], ◌∷◌, string_eq,
  if◌then◌else◌, arith, ◌∙◌, ap, ltb,
}
use offline_reels.Pipeline.Persistence.{ValidatedSource}
use offline_reels.Collector.Limits.{CollectorLimits}
use offline_reels.Collector.Ports.{Call, Locals, PublishedSource}
use offline_reels.Collector.Ledger.{Within, orphans, without}
use offline_reels.Collector.Source.{over_bytes}

abbrev pub created_keys : PublishedSource → List String
created_keys p = if p.created_by_attempt then p.object_key ∷ [] else []

pub without_self : (k : String) → without k (k ∷ []) ≡ []
unfolding without
without_self k = ap (λ b. if b then [] else k ∷ []) ((string_eq.equal_iff k k).1 refl)

pub without_created : (p : PublishedSource) → without p.object_key (created_keys p) ≡ []
unfolding without
without_created p =
    elim p.created_by_attempt
      as (λ b. without p.object_key (if b then p.object_key ∷ [] else []) ≡ []) [
        | true ↦ without_self p.object_key
        | false ↦ refl
      ]

pub orphans-published :
    (p : PublishedSource) (log : List Call)
    → orphans log ≡ []
    → orphans (Call.published p ∷ log) ≡ created_keys p
unfolding orphans
orphans-published p log e =
    ap (λ rest. if p.created_by_attempt then p.object_key ∷ rest else rest) e

pub orphans-committed :
    (p : PublishedSource) (log : List Call)
    → orphans log ≡ created_keys p
    → orphans (Call.committed p.object_key ∷ log) ≡ []
unfolding orphans
orphans-committed p log e = ap (without p.object_key) e ∙ without_created p

pub orphans-deleted :
    (p : PublishedSource) (log : List Call)
    → orphans log ≡ p.object_key ∷ []
    → orphans (Call.deleted p.object_key ∷ log) ≡ []
unfolding orphans
orphans-deleted p log e = ap (without p.object_key) e ∙ without_self p.object_key

pub Within-over_bytes :
    (limits : CollectorLimits) (l : Locals) (v : ValidatedSource)
    → over_bytes limits l v ≡ false
    → Within limits.max_run_bytes (l.committed_bytes + v.byte_size)
Within-over_bytes limits l v e = at limits.max_run_bytes e
  where
    at :
        (o : Option ℕ)
        → (elim o [ none ↦ false | some bytes ↦ ltb bytes (l.committed_bytes + v.byte_size) ])
          ≡ false
        → Within o (l.committed_bytes + v.byte_size)
    at none e = tt
    at (some bytes) e = ground arith
