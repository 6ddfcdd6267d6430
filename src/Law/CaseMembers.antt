-- ===== src/Law/CaseMembers.antt =====
-- apps/law/backend/src/domain/casemember/casemember-resource.ts, and the contained write of tuples in
-- domain/authz/tuples.ts. The look-ups of other kinds, the engine and the log are parameters.
pub mod Removal
use stigmer_apps.Common.{
  Text, codes, text_eq, ◌++◌, ◌&&◌, Bool, true, false, Option, none, some, List, [], ◌∷◌, ℕ,
  if◌then◌else◌,
}
use stigmer_apps.ResourceApi.Errors.{Failure, connect, failed_precondition, invalid_argument}
use stigmer_apps.ResourceApi.Effects.{Result, ok, throw, Action, pure, ◌>>=◌}
use stigmer_apps.ResourceApi.Envelope.{CallerPrincipal, Resource, Metadata}
use stigmer_apps.ResourceApi.Pipeline.{PipelineStep}
use stigmer_apps.ResourceApi.Port.{EventType, NaturalKey}
use stigmer_apps.ResourceApi.Resource.{WriteContext, required}
use stigmer_apps.ResourceApi.Resource.Create.{plain_step}
use stigmer_apps.ResourceApi.Resource.Custom.{
  Handler, finish, fail, load, authorize, save, publish, look, change,
}
use stigmer_apps.ResourceApi.Store.Filter.{
  FilterValue, equals, Direction, Nulls, ListQuery, ListResult,
}
use stigmer_apps.Authz.Reconcile.{TupleKey}
use stigmer_apps.Authz.Projection.{
  MemberRow, MembershipRow, TupleDelta, is_true, case_member_tuple_delta,
}

pub record CaseMemberSpec : Type 0 where
  pub case_id : Text
  pub member_id : Text

pub record CaseMemberStatus : Type 0 where
  pub active : Option Bool

abbrev pub CaseMember : Type 0
CaseMember = Resource CaseMemberSpec CaseMemberStatus

-- What the handlers call beyond their context: rows of other kinds, by their own store kinds, the
-- listing of this one, the guard on the content of a case, the engine's write and the error log.
pub record Deps (W : Type 0) : Type 0 where
  pub firm_member : W → (id : Text) → Result (Option MemberRow)
  pub lead_lawyer : W → (case_id : Text) → Result (Option Text)
  pub list_members : W → ListQuery → Result (ListResult CaseMember)
  pub assert_case_content : W → CallerPrincipal → (case_id : Text) → Result (Unit {0})
  pub engine_write : (writes deletes : List TupleKey) → Action W (Unit {0})
  pub log_drift : (context : Text) → Failure → W → W

unfoldable pub membership_key : (case_id member_id : Text) → Text
membership_key case_id member_id = case_id ++ codes ":" ++ member_id

unfoldable pub membership_natural_key : NaturalKey CaseMember
membership_natural_key = record {
  label = codes "membership";
  get = λ m. elim m.spec [ none ↦ [] | some spec ↦ membership_key spec.case_id spec.member_id ];
  idempotent = false;
}

abbrev pub with_active : Bool → CaseMember → CaseMember
with_active b m = record m { status = some (record { active = some b }) }

unfoldable pub active_on_create_step : {W : Type 0} → PipelineStep W (WriteContext CaseMember)
active_on_create_step = plain_step (codes "initialize-status") (λ ctx. do
  member ← required ctx.new_state
  pure (record ctx { new_state = some (with_active true member) }))

-- `spec?.caseId ?? ""` and `status?.active`
abbrev pub spec_case_id : CaseMember → Text
spec_case_id m = elim m.spec [ none ↦ [] | some spec ↦ spec.case_id ]

abbrev pub active_of : CaseMember → Option Bool
active_of m = elim m.status [ none ↦ none | some status ↦ status.active ]

abbrev pub spec_member_id : CaseMember → Option Text
spec_member_id m = elim m.spec [ none ↦ none | some spec ↦ some spec.member_id ]

-- The membership as the projection reads it.
abbrev pub row_of : CaseMember → MembershipRow
row_of m = record {
  active = active_of m;
  case_id = spec_case_id m;
  member_id = elim m.spec [ none ↦ [] | some spec ↦ spec.member_id ];
}

-- `a === b` of strings that can be undefined
abbrev pub same_text : Option Text → Option Text → Bool
same_text none none = true
same_text none (some b) = false
same_text (some a) none = false
same_text (some a) (some b) = text_eq a b

abbrev pub id_or : (fallback : Text) → CaseMember → Text
id_or fallback m = elim m.metadata [ none ↦ fallback | some meta ↦ meta.id ]

module _ {W : Type 0} (d : Deps W) where
  abbrev pub contained : (context : Text) → Result (Unit {0}) × W → W
  contained context (ok _, w) = w
  contained context (throw f, w) = d.log_drift context f w

  abbrev pub write_delta : (context : Text) → (writes deletes : List TupleKey) → W → W
  write_delta context [] [] w = w
  write_delta context [] (t ∷ ts) w = contained context (d.engine_write [] (t ∷ ts) w)
  write_delta context (t ∷ ts) deletes w = contained context (d.engine_write (t ∷ ts) deletes w)

  -- `applyTupleDeltaSafely`, on what the promise of the delta settles to.
  unfoldable pub apply_tuple_delta_safely : Result TupleDelta → (context : Text) → W → W
  apply_tuple_delta_safely (throw f) context w = d.log_drift context f w
  apply_tuple_delta_safely (ok delta) context w = write_delta context delta.writes delta.deletes w

  abbrev pub sync : (context : Text) → (previous : Option CaseMember) → (next : CaseMember) → W → W
  sync context previous next w =
      apply_tuple_delta_safely
        (case_member_tuple_delta (d.firm_member w)
          (elim previous [ none ↦ none | some m ↦ some (row_of m) ]) (row_of next))
        context w

  unfoldable pub sync_tuples_on_create : PipelineStep W (WriteContext CaseMember)
  sync_tuples_on_create = plain_step (codes "sync-authz-tuples") (λ ctx. do
    member ← required ctx.new_state
    λ w. (ok ctx, sync (codes "CaseMember " ++ id_or (codes "(new)") member) none member w))

  -- The handler of remove, from its last part to its first.
  abbrev pub after_save : CaseMember → Result CaseMember → Handler W CaseMember CaseMember
  after_save previous (throw f) = fail f
  after_save previous (ok saved) =
      change (sync (codes "CaseMember " ++ id_or [] saved ++ codes " remove") (some previous) saved)
        (publish EventType.updated saved (some previous) (finish saved))

  abbrev pub is_lead : Failure
  is_lead = connect (
      failed_precondition
        (codes "This person is the matter's lead lawyer — assign a new lead before removing them"))

  abbrev pub already_removed : Failure
  already_removed = connect (failed_precondition (codes "This membership is already removed"))

  abbrev pub unless_lead : CaseMember → Result (Option Text) → Handler W CaseMember CaseMember
  unless_lead m (throw f) = fail f
  unless_lead m (ok lead) =
      if same_text lead (spec_member_id m)
      then fail is_lead
      else save (with_active false m) (after_save m)

  abbrev pub after_load : Result CaseMember → Handler W CaseMember CaseMember
  after_load (throw f) = fail f
  after_load (ok m) =
      if is_true (active_of m)
      then look (λ w. unless_lead m (d.lead_lawyer w (spec_case_id m)))
      else fail already_removed

  unfoldable pub remove : (id : Text) → Handler W CaseMember CaseMember
  remove id = load (record { id = some id; natural_key = none }) after_load

  -- The handler of list.
  unfoldable pub members_query : (case_id : Text) → (include_removed : Bool) → ListQuery
  members_query case_id include_removed = record {
    limit = 100;
    offset = 0;
    order_by =
        some (record { field = codes "createdAt"; direction = Direction.asc; nulls = Nulls.last });
    filter =
        (codes "caseId", equals case_id)
        ∷ (if include_removed then [] else (codes "active", equals (codes "true")) ∷ []);
  }

  abbrev pub answer :
      {A B : Type 0} → Result A → (A → Handler W CaseMember B) → Handler W CaseMember B
  answer (throw f) next = fail f
  answer (ok a) next = next a

  unfoldable pub list_members_of :
      Option CallerPrincipal
      → (case_id : Text) → (include_removed : Bool) → Handler W CaseMember (ListResult CaseMember)
  list_members_of caller case_id include_removed = authorize (λ allowed. answer allowed (λ _.
      elim caller [
        | none ↦ fail (connect (invalid_argument (codes "caller required")))
        | some c ↦ look (λ w.
            answer (d.assert_case_content w c case_id)
              (λ _. answer (d.list_members w (members_query case_id include_removed)) finish))
      ]))
