-- ===== src/Worker/Version.antt =====
-- A state that a worker has dumped is taken again.
use esr.Base.{
  ◌≡◌, refl, ap, Bool, true, false, some, List, [], ◌∷◌, Str, lit, Dict, get, has, put, remove,
  ◌==◌, arith, eqb_refl, eq_refl,
}
use esr.Base.Result.{Result, ok, Exc, >>=-eq-ok, ok_inj}
use esr.Decimal.{ℤ, pos, negsuc}
use esr.Value.{Value, int, obj, Fields, end, field, fields, get_or, null}
use esr.Worker.{version_key, World, Handler, Model, reply_with, with_state, run_handler}
use esr.Registry.{HandlerEntry, StateEntry}
use esr.Actions.{Event}
use esr.Value.Access.{same_int, eq_int, get_or-get}
use esr.Worker.Dump.{Data, leaf, dict_of_data, to_entries, entries_encoded, encoded}

pub same_int_refl : (i : ℤ) → same_int i i ≡ true
same_int_refl (pos n) = eqb_refl n
same_int_refl (negsuc n) = eqb_refl n

pub eq_int_refl : (float_eq : Str → ℤ → Bool) (i : ℤ) → eq_int float_eq (int i) i ≡ true
unfolding eq_int
eq_int_refl float_eq i = same_int_refl i

-- The items of a dump without a key, as they are encoded, with the key put in.
entries_encoded-put :
    (d : Dict Data) (k : Str) (v : Value) (fs : Fields)
    → has d k ≡ false
    → entries_encoded (to_entries d) ≡ ok fs
    → (gs : Fields) × (entries_encoded (to_entries (put d k (leaf v))) ≡ ok gs)
      × (get (fields gs) k ≡ some v)
      × (remove (fields gs) k ≡ fields fs)
unfolding entries_encoded has put get remove
entries_encoded-put [] k v fs h e =
    (field k v end, refl, rw (eq_refl k) refl, rw (eq_refl k) (ap fields (ok_inj e)))
entries_encoded-put ((j, x) ∷ d) k v fs h e =
    let (first, ex, e₁) = >>=-eq-ok (encoded x) _ e in
    let (rest, er, e₂) = >>=-eq-ok (entries_encoded (to_entries d)) _ e₁ in
    let (gs, eg, found, gone) = entries_encoded-put d k v rest (ground arith) er in
    let other : (j == k) ≡ false = ground arith in
    (
      field j first gs,
      rw (other, ex, eg) refl,
      rw (other, found) refl,
      rw (other, gone) (ap fields (ok_inj e₂)),
    )

module _ {S : Type 0} (world : World S) where
  -- The state of a reply, encoded and sent back with the next call to a handler of the same states,
  -- passes the check of its version, and the model gets exactly the items that were dumped, if the
  -- dump has no item under the key of the version and can be encoded.
  pub with_state-reply_with :
      (handler : HandlerEntry (Handler S)) (entry : StateEntry (Model S)) (dumped : Dict Data)
      (fs : Fields)
      → has dumped version_key ≡ false
      → encoded (dict_of_data (to_entries dumped)) ≡ ok (obj fs)
      → (actions : List Value)
      → (gs : Fields) × (new_state : Data) × (get
            (reply_with world entry dumped actions)
            (lit "new_state")
          ≡ some new_state)
        × (encoded new_state ≡ ok (obj gs))
        × ((event : Event)
            → with_state world handler entry event (fields gs)
              ≡ run_handler world handler.fn entry (fields fs) event)
  unfolding encoded with_state get ◌==◌
  with_state-reply_with handler entry dumped fs h e actions =
      let (fs', ef, same) = >>=-eq-ok (entries_encoded (to_entries dumped)) _ e in
      let (gs, eg, found, gone) =
        entries_encoded-put dumped version_key (int entry.schema_version) fs' h ef in
      let kept : get_or (fields gs) version_key null ≡ int entry.schema_version =
        get_or-get (fields gs) version_key null found in
      (
        gs,
        dict_of_data (to_entries (put dumped version_key (leaf (int entry.schema_version)))),
        refl,
        rw eg refl,
        λ event.
            rw (kept, eq_int_refl world.float_eq entry.schema_version, gone)
              (ap (λ l. run_handler world handler.fn entry l event) (ap fields (obj_inj same))),
      )
    where
      obj_inj : {fs' : Fields} → ◌≡◌ {A = Result Exc Value} (ok (obj fs')) (ok (obj fs)) → fs' ≡ fs
      obj_inj k = cc (k)
