-- ===== src/Nomad/Slots/Exact.antt =====
-- The slots are those of the active children, each once.
use nomad_temporal_jobs.Prelude.{
  ◌≡◌, refl, Bool, false, ◌||◌, ◌&&◌, List, [], ◌∷◌, any, count, arith, if◌then◌else◌, if_both,
}
use nomad_temporal_jobs.Prelude.Result.{Result, ok, err, Result-cases}
use nomad_temporal_jobs.Prelude.Text.{
  Text, text_eq, contains, add_key, times_key, IsKeySet, contains-add_key, add_key-IsKeySet,
}
use nomad_temporal_jobs.Nomad.Alloc.{AllocStub}
use nomad_temporal_jobs.Nomad.Slots.{
  JobMeta, dispatch_prefix, is_active_child, active_children, read_slots, active_runner_slots,
}
use nomad_temporal_jobs.Runner.Keys.{RunnerSlot, slot_key}
use nomad_temporal_jobs.Runner.Count.Exact.{slots_in}

-- an allocation of the child that takes a slot
abbrev pub is_slot_of : Text → Text → AllocStub → Bool
is_slot_of parent id al = is_active_child (dispatch_prefix parent) al && text_eq al.job_id id

pub active_children-found :
    (parent id : Text) (allocs : List AllocStub) (active : List Text)
    → contains (active_children (dispatch_prefix parent) allocs active) id
      ≡ (any (is_slot_of parent id) allocs || contains active id)
unfolding active_children
active_children-found parent id [] active = refl
active_children-found parent id (al ∷ allocs) active = ground (
  arith,
  active_children-found parent id allocs active,
  active_children-found parent id allocs (add_key active al.job_id),
  contains-add_key active al.job_id id,
)

pub active_children-IsKeySet :
    (parent : Text) (allocs : List AllocStub) (active : List Text)
    → IsKeySet active
    → IsKeySet (active_children (dispatch_prefix parent) allocs active)
unfolding active_children
active_children-IsKeySet parent [] active h = h
active_children-IsKeySet parent (al ∷ allocs) active h = active_children-IsKeySet parent allocs _ (
    if_both IsKeySet (is_active_child (dispatch_prefix parent) al)
      (add_key-IsKeySet active al.job_id h) h)

module _ (info : Text → Result JobMeta) where
  abbrev key_of : Text → Result JobMeta → Bool
  key_of key (err e) = false
  key_of key (ok m) = text_eq (slot_key (record { repo_url = m.repo_url; labels = m.labels })) key

  -- the child can be read and has the bucket key
  abbrev pub has_key : Text → Text → Bool
  has_key key id = key_of key (info id)

  pub slots_in-read_slots :
      (key : Text) (ids : List Text) → slots_in key (read_slots info ids) ≡ count (has_key key) ids
  unfolding read_slots
  slots_in-read_slots key [] = refl
  slots_in-read_slots key (id ∷ ids) =
      ground (arith, Result-cases (info id), slots_in-read_slots key ids)

  -- For every bucket key there are as many slots as distinct children of the job of which an
  -- allocation is pending or running and whose metadata can be read and has that key.
  pub active_runner_slots_exact :
      (parent : Text) (allocs : List AllocStub)
      → (children : List Text) × (slots : List RunnerSlot) × (active_runner_slots info
            (ok allocs)
            parent
          ≡ ok slots)
        × ((id : Text)
            → times_key id children ≡ (if any (is_slot_of parent id) allocs then 1 else 0))
        × ((key : Text) → slots_in key slots ≡ count (has_key key) children)
  unfolding active_runner_slots contains
  active_runner_slots_exact parent allocs =
      let children = active_children (dispatch_prefix parent) allocs [] in
      (
        children,
        read_slots info children,
        refl,
        λ id. ground (
          arith,
          active_children-found parent id allocs [],
          active_children-IsKeySet parent allocs [] (λ k. refl) id,
        ),
        λ key. slots_in-read_slots key children,
      )
