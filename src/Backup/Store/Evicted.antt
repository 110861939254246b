-- ===== src/Backup/Store/Evicted.antt =====
-- What an eviction does to the store.
use nomad_temporal_jobs.Prelude.{
  ◌≡◌, refl, sym, ap, ◌∙◌, true, false, List, [], ◌∷◌, ◌++◌, Option, none, some, arith, inl, inr,
}
use nomad_temporal_jobs.Prelude.Result.{Result, wrap, ok, err}
use nomad_temporal_jobs.Prelude.Text.{Text, text_eq, contains}
use nomad_temporal_jobs.Backup.Store.{Object, Service, oldest_object, evict, delete_oldest}
use nomad_temporal_jobs.Backup.Store.Oldest.{keys, oldest_object_lem}

module _ {S : Type 0} (service : Service S) where
  -- From the first state to the second the objects under the prefix are listed, and one of them, of
  -- another key than the one to spare, is deleted.
  abbrev pub Evicts : Text → Text → S → S → Type 0
  Evicts prefix spared s after =
      (objs : List Object) × (t : S) × (o : Object) × (service.list_objects (prefix ++ (b'/' ∷ []))
          s
        ≡ (ok objs, t))
      × (contains (keys objs) o.key ≡ true)
      × (text_eq o.key spared ≡ false)
      × (service.delete_object o.key t ≡ (ok tt, after))

  -- the answer of the eviction, by that of the deletion
  abbrev removed : Text → Result (Unit {0}) × S → Result Text × S
  removed key q = elim q.0 [ ok x ↦ (ok key, q.1) | err e ↦ (err e, q.1) ]

  -- and by that of the listing
  abbrev listed : Text → Result (List Object) × S → Result Text × S
  listed spared q = elim q.0 [
    | ok objs ↦ evict service (oldest_object objs spared) q.1
    | err e ↦ (err (wrap "list objects" e), q.1)
  ]

  deleted :
      (key : Text) (q : Result (Unit {0}) × S) (k : Text) (u : S)
      → removed key q ≡ (ok k, u)
      → q ≡ (ok tt, u)
  deleted key (ok x, t) k u p = ap (λ z. (ok tt, z.1)) p
  deleted key (err e, t) k u p = ground (arith, ap (λ z. z.0) p)

  evict_lem :
      (prefix spared : Text) (s t : S) (objs : List Object) (k : Text) (u : S)
      → service.list_objects (prefix ++ (b'/' ∷ [])) s ≡ (ok objs, t)
      → (o : Option Object) → oldest_object objs spared ≡ o
      → evict service o t ≡ (ok k, u)
      → Evicts prefix spared s u
  unfolding evict
  evict_lem prefix spared s t objs k u l none q p = ground (arith, ap (λ z. z.0) p)
  evict_lem prefix spared s t objs k u l (some o) q p = elim (oldest_object_lem objs spared) [
    | inl (n, h) ↦ ground (arith, n, q)
    | inr (m, v, e, c, d, h, all) ↦ (
      objs,
      t,
      o,
      l,
      ground (arith, e, q, c),
      ground (arith, e, q, d),
      deleted o.key (service.delete_object o.key t) k u p,
    )
  ]

  listed-Evicts :
      (prefix spared : Text) (s : S) (r : Result (List Object) × S) (k : Text) (u : S)
      → service.list_objects (prefix ++ (b'/' ∷ [])) s ≡ r
      → delete_oldest service prefix spared s ≡ (ok k, u)
      → Evicts prefix spared s u
  unfolding delete_oldest
  listed-Evicts prefix spared s (ok objs, t) k u l p =
      evict_lem prefix spared s t objs k u l (oldest_object objs spared) refl
        (ap (listed spared) (sym l) ∙ p)
  listed-Evicts prefix spared s (err e, t) k u l p =
      ground (arith, ap (λ z. z.0) (ap (listed spared) (sym l) ∙ p))

  -- An eviction that succeeds lists the objects under the prefix and deletes one of them, which is
  -- not the one to spare.
  pub delete_oldest-Evicts :
      (prefix spared : Text) (s : S) (k : Text) (u : S)
      → delete_oldest service prefix spared s ≡ (ok k, u)
      → Evicts prefix spared s u
  delete_oldest-Evicts prefix spared s k u p =
      listed-Evicts prefix spared s (service.list_objects (prefix ++ (b'/' ∷ [])) s) k u refl p
