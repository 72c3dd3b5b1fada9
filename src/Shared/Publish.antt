-- ===== src/Shared/Publish.antt =====
-- `publish` of backends/shared_state.py is atomic.
use opencti_middleware.Base.{
  ◌+◌, ◌-◌, ◌≡◌, ◌⊎◌, refl, sym, ap, true, false, false≢true, arith, inl, inr, Bool-cases,
  Option-cases,
}
use opencti_middleware.Base.Result.{raise, ok, Exception}
use opencti_middleware.Shared.{Folder, SharedMembershipState, holds, Disk, publish, abandon}

-- what another process sees of the folder is as before
abbrev pub Restored : Folder → Folder → Disk → Type 0
Restored f f' d =
    (f'.state_file ≡ f.state_file)
    × (f'.lock_holder ≡ f.lock_holder)
    × (d.stuck ≡ false → f'.temp_files ≡ f.temp_files)

-- the folder with the temporary file
abbrev made : Folder → Folder
made f = record f { temp_files = f.temp_files + 1 }

abandon-Restored : (d : Disk) (e : Exception) (f : Folder) → Restored f (abandon d e (made f)).1 d
abandon-Restored d e f = elim (Bool-cases d.stuck) [
  | inl k ↦ rw k (refl, refl, λ h. absurd (false≢true (sym h)))
  | inr k ↦ rw k (refl, refl, λ h. omega arith)
]

-- Whatever the disk does, `publish` either returns, and then the state file holds the new state and
-- no temporary file is left over, or it raises, and then the state file is as it was, and no
-- temporary file is left over unless it could not be removed. The lock stays as it is.
pub publish_cases :
    (d : Disk) (s : SharedMembershipState) (f : Folder)
    → ((publish d s f).0 ≡ ok true) × ((publish d s f).1 ≡ record f { state_file = holds s })
      ⊎ (e : Exception) × ((publish d s f).0 ≡ raise e) × Restored f (publish d s f).1 d
unfolding publish
publish_cases d s f = elim (Option-cases d.mkstemp) [
  | inr (e, k) ↦ rw (k, publish) (inr (e, refl, (refl, refl, λ _. refl)))
  | inl k ↦ elim (Option-cases d.dump) [
    | inr (e, j) ↦ rw (k, j, publish) (inr (e, refl, abandon-Restored d e f))
    | inl j ↦ elim (Option-cases d.replace) [
      | inr (e, i) ↦ rw (k, j, i, publish) (inr (e, refl, abandon-Restored d e f))
      | inl i ↦
          let back : f.temp_files + 1 - 1 ≡ f.temp_files = omega arith in
          rw (k, j, i, publish)
            (inl (refl, ap (λ n. record f { state_file = holds s; temp_files = n }) back))
    ]
  ]
]
