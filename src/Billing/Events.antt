-- ===== src/Billing/Events.antt =====
-- What ApplyEvent of backend/internal/repository/billing_repository.go does with the provider's events.
use nexa_flow.Prelude.{
  List, [], ◌∷◌, Result, err, Result-cases, Bool-cases, ◌≡◌, refl, sym, ◌∙◌, ap, inl, inr, false,
  Option, none, some, String, ok, >>=-eq-ok, ok_injective, Option-cases, ◌==◌, arith, if◌then◌else◌,
  string_eq,
}
use nexa_flow.Prelude.Int.{ℤ}
use nexa_flow.Prelude.Maps.{lookup, lookup-insert}
use nexa_flow.Billing.Model.{Plan, Subscription, ProviderEvent, BillingOverview, Tables}
use nexa_flow.Billing.Store.{
  BillingError, plan_where, event_subscription, upserted, subscribe, apply_new, view_of,
  apply_event, overview, usage_of,
}

abbrev or_unchanged : Tables → Result BillingError Tables → Tables
or_unchanged s (ok s') = s'
or_unchanged s (err e) = s

apply_new-none :
    (uuid : String) (s s' : Tables) (e : ProviderEvent) (seen : Option String)
    → apply_new uuid s e seen ≡ ok s'
    → seen ≡ none
    → (plan : Plan) × (plan_where (λ p. Plan.stripe_price_id p == e.price_id) s ≡ ok plan)
      × (s' ≡ subscribe uuid e plan s)
apply_new-none uuid s s' e none h new =
    let step = >>=-eq-ok (plan_where (λ p. Plan.stripe_price_id p == e.price_id) s) _ h in
    (step.0, step.1, sym (ok_injective step.2))
apply_new-none uuid s s' e (some type) h new = cc

applied_new :
    (uuid : String) (s s' : Tables) (e : ProviderEvent)
    → apply_event uuid s e ≡ ok s'
    → lookup e.id s.events ≡ none
    → (plan : Plan) × (plan_where (λ p. Plan.stripe_price_id p == e.price_id) s ≡ ok plan)
      × (s' ≡ subscribe uuid e plan s)
unfolding apply_event
applied_new uuid s s' e h new = apply_new-none uuid s s' e (lookup e.id s.events) h new

subscribe-seen :
    (uuid : String) (s : Tables) (e : ProviderEvent) (plan : Plan)
    → lookup e.id (subscribe uuid e plan s).events ≡ some e.type
subscribe-seen uuid s e plan = ground (arith, lookup-insert e.id e.id e.type s.events)

repeated :
    (uuid type : String) (s : Tables) (e : ProviderEvent)
    → lookup e.id s.events ≡ some type
    → apply_event uuid s e ≡ ok s
unfolding apply_event
repeated uuid type s e h = rw h refl

applied_seen :
    (uuid : String) (s s' : Tables) (e : ProviderEvent)
    → apply_event uuid s e ≡ ok s'
    → (type : String) × (lookup e.id s'.events ≡ some type)
unfolding apply_event
applied_seen uuid s s' e h = elim (Option-cases (lookup e.id s.events)) [
  | inl new ↦
      let a = applied_new uuid s s' e h new in
      (e.type, ap (λ x. lookup e.id (Tables.events x)) a.2 ∙ subscribe-seen uuid s e a.0)
  | inr (type, seen) ↦ (
    type,
    ap (λ x. lookup e.id (Tables.events x))
          (sym (ok_injective (sym (repeated uuid type s e seen) ∙ h)))
        ∙ seen,
  )
]

-- Events in the order in which they arrive, with the id for a subscription that each makes. One that
-- is refused leaves the tables.
unfoldable pub apply_events : Tables → List (String × ProviderEvent) → Tables
unfolding apply_event
apply_events s [] = s
apply_events s ((uuid, e) ∷ rest) = apply_events (or_unchanged s (apply_event uuid s e)) rest

subscribe-keeps :
    (uuid id : String) (s : Tables) (e : ProviderEvent) (plan : Plan) (type : String)
    → lookup id s.events ≡ some type
    → (type' : String) × (lookup id (subscribe uuid e plan s).events ≡ some type')
subscribe-keeps uuid id s e plan type h = elim (Bool-cases (e.id == id)) [
  | inl same ↦ (e.type, lookup-insert e.id id e.type s.events ∙ rw same refl)
  | inr other ↦ (type, lookup-insert e.id id e.type s.events ∙ rw other h)
]

apply_event-keeps :
    (uuid id : String) (s : Tables) (e : ProviderEvent) (type : String)
    → lookup id s.events ≡ some type
    → (type' : String) × (lookup id (or_unchanged s (apply_event uuid s e)).events ≡ some type')
apply_event-keeps uuid id s e type h = elim (Result-cases (apply_event uuid s e)) [
  | inr (x, refused) ↦ (type, rw refused h)
  | inl (s', applied) ↦ elim (Option-cases (lookup e.id s.events)) [
    | inr (t, seen) ↦ (type, rw (repeated uuid t s e seen) h)
    | inl new ↦
        let a = applied_new uuid s s' e applied new in
        let kept = subscribe-keeps uuid id s e a.0 type h in (kept.0, rw (applied, a.2) (kept.1))
  ]
]

apply_events-keeps :
    (id : String) (s : Tables) (events : List (String × ProviderEvent)) (type : String)
    → lookup id s.events ≡ some type
    → (type' : String) × (lookup id (apply_events s events).events ≡ some type')
unfolding apply_events
apply_events-keeps id s [] type h = (type, h)
apply_events-keeps id s ((uuid, e) ∷ rest) type h =
    let next = apply_event-keeps uuid id s e type h in
    apply_events-keeps id (or_unchanged s (apply_event uuid s e)) rest next.0 next.1

-- Once an event has been applied, then after any further events, of any ids, applying one with the
-- same id again, whatever else it says, succeeds and changes nothing.
pub apply_event-once :
    (uuid uuid' : String) (s s' : Tables) (e e' : ProviderEvent)
    (between : List (String × ProviderEvent))
    → apply_event uuid s e ≡ ok s'
    → e'.id ≡ e.id
    → apply_event uuid' (apply_events s' between) e' ≡ ok (apply_events s' between)
apply_event-once uuid uuid' s s' e e' between h same =
    let seen = applied_seen uuid s s' e h in
    let still = apply_events-keeps e.id s' between seen.0 seen.1 in
    repeated uuid' still.0 (apply_events s' between) e' (rw same still.1)

upserted-status :
    (old : Option Subscription) (new : Subscription) → (upserted old new).status ≡ new.status
upserted-status none new = refl
upserted-status (some o) new = refl

upserted-plan :
    (old : Option Subscription) (new : Subscription) → (upserted old new).plan_id ≡ new.plan_id
upserted-plan none new = refl
upserted-plan (some o) new = refl

view_of-eq :
    (t : String) (month : ℤ) (sub : Subscription) (s : Tables) (plan : Plan)
    → plan_where (λ p. Plan.id p == sub.plan_id) s ≡ ok plan
    → view_of t month (sub, s)
      ≡ ok (record { plan = plan; subscription = sub; usage = usage_of t month s.counters }, s)
view_of-eq t month sub s plan h = rw h refl

-- When a new event is applied, its tenant's overview shows the plan of the event's price, be the
-- event a payment or a cancellation, if that plan is the first with its id; the status of the subscription tells
-- them apart. Another tenant's subscription, and the usage, stay as they were.
pub apply_event-overview :
    (uuid uuid' : String) (month : ℤ) (s s' : Tables) (e : ProviderEvent)
    → apply_event uuid s e ≡ ok s'
    → lookup e.id s.events ≡ none
    → ((p : Plan)
        → plan_where (λ p'. Plan.stripe_price_id p' == e.price_id) s ≡ ok p
        → plan_where (λ p'. Plan.id p' == p.id) s ≡ ok p)
    → (view : BillingOverview) × (overview uuid' month s' e.tenant_id ≡ ok (view, s'))
      × (plan_where (λ p. Plan.stripe_price_id p == e.price_id) s ≡ ok view.plan)
      × (view.subscription.status
          ≡ (if e.type == "customer.subscription.deleted" then "canceled" else "active"))
      × (view.usage ≡ usage_of e.tenant_id month s.counters)
      × ((t : String)
          → (e.tenant_id == t) ≡ false
          → lookup t s'.subscriptions ≡ lookup t s.subscriptions)
unfolding overview plan_where
apply_event-overview uuid uuid' month s s' e h new distinct =
    let a = applied_new uuid s s' e h new in
    let sub = upserted (lookup e.tenant_id s.subscriptions) (event_subscription uuid e a.0) in
    let there : lookup e.tenant_id (subscribe uuid e a.0 s).subscriptions ≡ some sub =
      ground (arith, lookup-insert e.tenant_id e.tenant_id sub s.subscriptions) in
    (
      record { plan = a.0; subscription = sub; usage = usage_of e.tenant_id month s.counters },
      rw (a.2, there)
          (view_of-eq e.tenant_id month sub (subscribe uuid e a.0 s) a.0 (
            rw (upserted-plan (lookup e.tenant_id s.subscriptions) (event_subscription uuid e a.0))
              (distinct a.0 a.1))),
      a.1,
      upserted-status (lookup e.tenant_id s.subscriptions) (event_subscription uuid e a.0),
      refl,
      λ t ne. rw a.2 (lookup-insert e.tenant_id t sub s.subscriptions ∙ rw ne refl),
    )
