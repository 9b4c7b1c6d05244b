-- ===== src/Capability/Reload.antt =====
-- The file behind the checker: the reload by modification time against a reload on every call.
use esr.Base.{ℕ, ◌≡◌, refl, false, Option, none, some, List, [], ◌∷◌, Str, Dict, get, arith}
use esr.Base.Result.{ok, err}
use esr.Value.{Value}
use esr.Capability.{
  Checker, no_grants, File, missing, present, principals_of, reload, has_capability, any_matches,
}

module _ (load : Str → Option Value) where
  -- What one document makes of a snapshot: it replaces the snapshot if it can be read.
  abbrev pub replace : Dict (List Value) → Option Value → Dict (List Value)
  replace snapshot none = snapshot
  replace snapshot (some document) = elim (principals_of document) [
    | ok fresh ↦ fresh
    | err e ↦ snapshot
  ]

  -- The reload with no regard to modification times.
  abbrev pub eager : File → Dict (List Value) → Dict (List Value)
  eager missing snapshot = []
  eager (present m text) snapshot = replace snapshot (load text)

  pub reload_missing : (c : Checker) → reload load missing c ≡ (ok tt, no_grants)
  unfolding reload
  reload_missing c = ground arith

  -- While there is no file every principal is denied every permission, whatever was granted before.
  pub has_capability_missing :
      (c : Checker) (principal permission : Str)
      → has_capability load missing principal permission c ≡ (ok false, no_grants)
  unfolding has_capability any_matches get
  has_capability_missing c principal permission = rw reload_missing refl

  -- The file's text where a file was last modified at that time.
  module _ (content : ℕ → Str) where
    abbrev pub file_at : Option ℕ → File
    file_at none = missing
    file_at (some m) = present m (content m)

    -- The remembered time is that of a document from which the snapshot would be kept.
    abbrev pub IsFresh : Checker → Type 0
    IsFresh c = (m : ℕ) → c.mtime ≡ some m → eager (present m (content m)) c.snapshot ≡ c.snapshot

    IsFresh-no_grants : IsFresh no_grants
    IsFresh-no_grants m h = cc

    reload_step :
        (c : Checker) (at : Option ℕ)
        → IsFresh c
        → ((reload load (file_at at) c).1.snapshot ≡ eager (file_at at) c.snapshot)
          × IsFresh (reload load (file_at at) c).1
    unfolding reload
    reload_step c none h = (ground arith, λ m e. ground arith)
    reload_step c (some m) h = (ground (arith, h m), λ m' e. ground (arith, h m, h m'))

    -- The checker after it has met the file at each of these times.
    abbrev pub poll : Checker → List (Option ℕ) → Checker
    poll c [] = c
    poll c (at ∷ later) = poll (reload load (file_at at) c).1 later

    abbrev pub eager_poll : Dict (List Value) → List (Option ℕ) → Dict (List Value)
    eager_poll snapshot [] = snapshot
    eager_poll snapshot (at ∷ later) = eager_poll (eager (file_at at) snapshot) later

    poll_fresh :
        (c : Checker) (times : List (Option ℕ))
        → IsFresh c
        → (poll c times).snapshot ≡ eager_poll c.snapshot times
    poll_fresh c [] h = refl
    poll_fresh c (at ∷ later) h =
        let (same, fresh) = reload_step c at h in
        rw (poll_fresh (reload load (file_at at) c).1 later fresh, same) refl

    -- If no text of the file ever shares its modification time with another, then after any history
    -- of the file, with malformed texts, failed conversions and absences, the gated reload holds
    -- the
    -- snapshot that a reload on every check would hold.
    pub poll-eager_poll :
        (times : List (Option ℕ)) → (poll no_grants times).snapshot ≡ eager_poll [] times
    poll-eager_poll times = poll_fresh no_grants times IsFresh-no_grants
