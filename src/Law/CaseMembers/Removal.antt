-- ===== src/Law/CaseMembers/Removal.antt =====
-- apps/law/backend/src/domain/casemember/casemember-resource.ts, remove: what a removal that succeeds
-- has checked, stored and revoked.
use stigmer_apps.Common.{
  Text, codes, ◌++◌, ◌≡◌, refl, ap, sym, ◌∙◌, or_undefined, Bool, true, false, Option, none, some,
  [], ◌∷◌, arith,
}
use stigmer_apps.ResourceApi.Effects.{Result, ok, throw, proceed-eq-ok, after_query-eq-ok}
use stigmer_apps.ResourceApi.Envelope.{CallerPrincipal, EnvelopeIdentity, stamp_custom_mutation}
use stigmer_apps.ResourceApi.Port.{EventType, Runtime}
use stigmer_apps.ResourceApi.Resource.{persist, publish_safely}
use stigmer_apps.ResourceApi.Resource.Custom.{load_authorized, save_stamped, raised, run_handler}
use stigmer_apps.Authz.Projection.{
  is_true, case_member_tuple, case_member_tuple_delta, resolve_member_user_id,
}
use stigmer_apps.Law.CaseMembers.{
  CaseMember, CaseMemberSpec, CaseMemberStatus, Deps, with_active, spec_case_id, active_of,
  spec_member_id, row_of, same_text, id_or, contained, apply_tuple_delta_safely, sync, after_save,
  unless_lead, after_load, remove,
}

abbrev pub context_of : CaseMember → Text
context_of saved = codes "CaseMember " ++ id_or [] saved ++ codes " remove"

stamped-status :
    (identity : EnvelopeIdentity) (m : CaseMember) (c : Option CallerPrincipal) (now : _)
    {saved : CaseMember}
    → stamp_custom_mutation identity m c now ≡ ok saved
    → saved.status ≡ m.status
unfolding stamp_custom_mutation
stamped-status identity m c now {saved} h =
    elim m.metadata as (λ o. m.metadata ≡ o → saved.status ≡ m.status) [
      | none ↦ λ e. ground arith
      | some meta ↦ λ e.
          elim c as (λ o. c ≡ o → saved.status ≡ m.status) [
            | none ↦ λ k. ground arith
            | some asker ↦ λ k. ground arith
          ]
            refl
    ]
      refl

module _ {W : Type 0} (d : Deps W) (rt : Runtime W CaseMemberSpec CaseMemberStatus)
    (operation : Text) (caller : Option CallerPrincipal) where
  saved-status :
      (m : CaseMember) (w : W) {saved : CaseMember} {w' : W}
      → save_stamped rt operation caller m w ≡ (ok saved, w')
      → saved.status ≡ m.status
  unfolding save_stamped
  saved-status m w {saved} h =
      let (now, w1, _, h1) = proceed-eq-ok (rt.host.new_date w) _ h in
      let (s, e, h3) = after_query-eq-ok (stamp_custom_mutation rt.identity m caller now) w1 _ h1 in
      let (u, w3, _, h4) = proceed-eq-ok (persist rt s w1) _ h3 in
      let same : s ≡ saved = cc in
      ap (λ (r : CaseMember). r.status) (sym same) ∙ stamped-status rt.identity m caller now e

  -- What a removal has done: the caller was let at an active membership, which is not the lead's; it
  -- is stored as inactive, its tuple is taken from the engine and the write is announced.
  pub record IsRemoval (id : Text) (w w' : W) (saved : CaseMember) : Type 0 where
    pub found : CaseMember
    pub loaded : W
    pub stored : W
    pub was_let :
        load_authorized rt operation caller (record { id = some id; natural_key = none }) w
        ≡ (ok found, loaded)
    pub was_active : active_of found ≡ some true
    pub not_lead :
        (lead : Option Text) × (d.lead_lawyer loaded (spec_case_id found) ≡ ok lead)
        × (same_text lead (spec_member_id found) ≡ false)
    pub was_saved :
        save_stamped rt operation caller (with_active false found) loaded ≡ (ok saved, stored)
    pub closed : active_of saved ≡ some false
    pub ended :
        w'
        ≡ (publish_safely rt EventType.updated saved
            (some found)
            caller
            (sync d (context_of saved) (some found) saved stored)).1

  active-true : (o : Option Bool) → is_true o ≡ true → o ≡ some true
  active-true none h = cc
  active-true (some b) h = ap some h

  -- The ends of the three calls of the handler.
  after_save-ends :
      (m : CaseMember) (r : Result CaseMember) (w1 : W) (up : Bool) {saved : CaseMember}
      {flag : Bool} {w' : W}
      → run_handler rt operation caller (after_save d m r) up w1 ≡ (ok saved, flag, w')
      → (r ≡ ok saved)
        × (w'
            ≡ (publish_safely rt EventType.updated saved
                (some m)
                caller
                (sync d (context_of saved) (some m) saved w1)).1)
  unfolding run_handler
  after_save-ends m (throw f) w1 up h = cc
  after_save-ends m (ok s) w1 up {saved} {flag} {w'} h =
      let same : s ≡ saved = ground arith in
      (
        ap ok same,
        sym (ap (λ (x : Result CaseMember × Bool × W). x.2) h)
            ∙ ap
                (λ (x : CaseMember).
                  (publish_safely rt EventType.updated x (some m) caller
                    (sync d (context_of x) (some m) x w1)).1)
                same,
      )

  unless_lead-ends :
      (m : CaseMember) (r : Result (Option Text)) (w1 : W) (up : Bool) {saved : CaseMember}
      {flag : Bool} {w' : W}
      → run_handler rt operation caller (unless_lead d m r) up w1 ≡ (ok saved, flag, w')
      → (lead : Option Text) × (r ≡ ok lead)
        × (same_text lead (spec_member_id m) ≡ false)
        × (run_handler rt operation caller
              (after_save d m (save_stamped rt operation caller (with_active false m) w1).0)
              up
              (save_stamped rt operation caller (with_active false m) w1).1
            ≡ (ok saved, flag, w'))
  unfolding run_handler
  unless_lead-ends m (throw f) w1 up h = cc
  unless_lead-ends m (ok lead) w1 up h = (lead, refl, ground arith, ground arith)

  after_load-ends :
      (m : CaseMember) (w1 : W) (up : Bool) {saved : CaseMember} {flag : Bool} {w' : W}
      → run_handler rt operation caller (after_load d (ok m)) up w1 ≡ (ok saved, flag, w')
      → (is_true (active_of m) ≡ true)
        × (run_handler rt operation caller
              (unless_lead d m (d.lead_lawyer w1 (spec_case_id m)))
              up
              w1
            ≡ (ok saved, flag, w'))
  unfolding run_handler
  after_load-ends m w1 up h = (ground arith, ground arith)

  loaded-IsRemoval :
      (id : Text) (w : W) (up : Bool) {saved : CaseMember} {flag : Bool} {w' : W}
      (r : Result CaseMember) (w1 : W)
      → load_authorized rt operation caller (record { id = some id; natural_key = none }) w
        ≡ (r, w1)
      → run_handler rt operation caller (after_load d r) up w1 ≡ (ok saved, flag, w')
      → IsRemoval id w w' saved
  unfolding run_handler
  loaded-IsRemoval id w up (throw f) w1 e h = cc
  loaded-IsRemoval id w up {saved} (ok m) w1 e h =
      let (active, h1) = after_load-ends m w1 up h in
      let (lead, asked, other, h2) =
        unless_lead-ends m (d.lead_lawyer w1 (spec_case_id m)) w1 up h1 in
      let o : Result CaseMember × W = save_stamped rt operation caller (with_active false m) w1 in
      let (good, end) = after_save-ends m o.0 o.1 up h2 in
      let stored : save_stamped rt operation caller (with_active false m) w1 ≡ (ok saved, o.1) =
        ap (λ x. (x, o.1)) good in
      record {
        found = m;
        loaded = w1;
        stored = o.1;
        was_let = e;
        was_active = active-true (active_of m) active;
        not_lead = (lead, asked, other);
        was_saved = stored;
        closed =
            ap (λ x. elim x [ none ↦ none | some status ↦ status.active ])
              (saved-status (with_active false m) w1 stored);
        ended = end;
      }

  -- A removal that succeeds has loaded a membership that the caller may remove, that was active and
  -- that is not the one of the lead lawyer of its case; it is stored as inactive and comes back so, and
  -- then the change of its tuple is handed to the engine and the update is announced.
  pub remove-IsRemoval :
      (id : Text) (w : W) (saved : CaseMember) (flag : Bool) (w' : W)
      → run_handler rt operation caller (remove d id) false w ≡ (ok saved, flag, w')
      → IsRemoval id w w' saved
  unfolding remove run_handler
  remove-IsRemoval id w saved flag w' h =
      let o : Result CaseMember × W =
        load_authorized rt operation caller (record { id = some id; natural_key = none }) w in
      loaded-IsRemoval id w (raised o.0 false) o.0 o.1 refl h

  -- What the write of the tuples then is: the one delete of the membership's tuple.
  pub removal-revokes :
      (m saved : CaseMember) (user case_id : Text) (w : W)
      → active_of m ≡ some true
      → active_of saved ≡ some false
      → or_undefined (spec_case_id saved) ≡ some case_id
      → resolve_member_user_id (d.firm_member w) (row_of saved).member_id ≡ ok (some user)
      → sync d (context_of saved) (some m) saved w
        ≡ contained d (context_of saved) (d.engine_write [] (case_member_tuple user case_id ∷ []) w)
  unfolding apply_tuple_delta_safely case_member_tuple_delta
  removal-revokes m saved user case_id w was now named known =
      ground (arith, was, now, named, known)
