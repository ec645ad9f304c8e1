-- ===== src/Frontend/Absorbed.antt =====
-- What a PUT of a subscription may change, of pkg/frontend/subscriptions_put.go.
use mathlib.Core.Path.{subst}
use aro_rp.Base.{String, ◌≡◌, ◌≢◌, ◌⊎◌, inl, inr, refl, sym, ◌∙◌, true}
use aro_rp.Api.Error.{Result, ok, err, new_cloud_error}
use aro_rp.Api.Document.{
  Subscription, SubscriptionDocument, SubscriptionState, registered, unregistered, warned,
  suspended, deleted,
}
use aro_rp.Api.Document as Document
use aro_rp.Frontend.{Config, Request}
use aro_rp.Frontend.Subscriptions.{set_state, read_subscription}

-- The move of a subscription from one state to another that a request may ask for.
pub data IsMove : SubscriptionState → SubscriptionState → Type 0 where
  end : {old : SubscriptionState} → IsMove old deleted
  set :
      {old new : SubscriptionState}
      → old ≢ deleted
      → (new ≡ registered) ⊎ (new ≡ unregistered) ⊎ (new ≡ warned) ⊎ (new ≡ suspended)
      → IsMove old new

-- What a request for `asked` makes of the document of a subscription: it has what was asked for, the
-- state moved as it may, everything
-- that belongs to the worker is kept, and the clusters are to be deleted if the state is Deleted.
pub record IsMoved (asked : Subscription) (before after : SubscriptionDocument) : Type 0 where
  pub subscription : after.subscription ≡ asked
  pub move : IsMove before.subscription.state after.subscription.state
  pub id : after.id ≡ before.id
  pub owner : after.lease_owner ≡ before.lease_owner
  pub expires : after.lease_expires ≡ before.lease_expires
  pub dequeues : after.dequeues ≡ before.dequeues
  pub ends : after.subscription.state ≡ deleted → after.deleting ≡ true
  pub stays : after.subscription.state ≢ deleted → after.deleting ≡ before.deleting

deleted-IsMoved :
    (d : SubscriptionDocument) (s : Subscription)
    → s.state ≡ deleted
    → IsMoved s d (record d { subscription = s; deleting = true })
deleted-IsMoved d s e = record {
  move = subst (IsMove d.subscription.state) (sym e) end;
  subscription = refl;
  id = refl;
  owner = refl;
  expires = refl;
  dequeues = refl;
  ends = λ _. refl;
  stays = λ h. absurd (h e);
}

other-IsMoved :
    (d : SubscriptionDocument) (s : Subscription) (new : SubscriptionState)
    → s.state ≡ new
    → d.subscription.state ≢ deleted
    → (new ≡ registered) ⊎ (new ≡ unregistered) ⊎ (new ≡ warned) ⊎ (new ≡ suspended)
    → new ≢ deleted
    → IsMoved s d (record d { subscription = s })
other-IsMoved d s new e old h differs = record {
  move = subst (IsMove d.subscription.state) (sym e) (set old h);
  subscription = refl;
  id = refl;
  owner = refl;
  expires = refl;
  dequeues = refl;
  ends = λ k. absurd (differs (sym e ∙ k));
  stays = λ _. refl;
}

old_state :
    (old : SubscriptionState) (d x : SubscriptionDocument)
    → (elim old as (λ _. Result SubscriptionDocument) [
      | deleted ↦ err (new_cloud_error 400 "InvalidSubscriptionState" "")
      | _ ↦ ok d
    ])
      ≡ ok x
    → (old ≢ deleted) × (d ≡ x)
old_state deleted d x e = cc e
old_state registered d x e = (λ h. cc h, cc e)
old_state unregistered d x e = (λ h. cc h, cc e)
old_state warned d x e = (λ h. cc h, cc e)
old_state suspended d x e = (λ h. cc h, cc e)
old_state (Document.unknown t) d x e = (λ h. cc h, cc e)

-- set_state with the new state apart
abbrev set_to :
    SubscriptionState
    → SubscriptionState
    → Subscription
    → SubscriptionDocument
    → Result SubscriptionDocument
set_to new old s d = elim new [
  | deleted ↦ ok (record d { subscription = s; deleting = true })
  | Document.unknown t ↦ err (new_cloud_error 400 "InvalidParameter" "state")
  | _ ↦ elim old [
    | deleted ↦ err (new_cloud_error 400 "InvalidSubscriptionState" "")
    | _ ↦ ok (record d { subscription = s })
  ]
]

by_old :
    (s : Subscription) (new : SubscriptionState) (d d' : SubscriptionDocument)
    → s.state ≡ new
    → (new ≡ registered) ⊎ (new ≡ unregistered) ⊎ (new ≡ warned) ⊎ (new ≡ suspended)
    → new ≢ deleted
    → (d.subscription.state ≢ deleted) × (record d { subscription = s } ≡ d')
    → IsMoved s d d'
by_old s new d d' same h differs (old, e) =
    subst (IsMoved s d) e (other-IsMoved d s new same old h differs)

set_to-IsMoved :
    (s : Subscription) (new : SubscriptionState) (d d' : SubscriptionDocument)
    → s.state ≡ new
    → set_to new d.subscription.state s d ≡ ok d'
    → IsMoved s d d'
unfolding new_cloud_error
set_to-IsMoved s deleted d d' same e = subst (IsMoved s d) (cc e) (deleted-IsMoved d s same)
set_to-IsMoved s (Document.unknown t) d d' same e = cc e
set_to-IsMoved s registered d d' same e =
    by_old s registered d d' same (inl refl) (λ h. cc h)
      (old_state d.subscription.state (record d { subscription = s }) d' e)
set_to-IsMoved s unregistered d d' same e =
    by_old s unregistered d d' same (inr (inl refl)) (λ h. cc h)
      (old_state d.subscription.state (record d { subscription = s }) d' e)
set_to-IsMoved s warned d d' same e =
    by_old s warned d d' same (inr (inr (inl refl))) (λ h. cc h)
      (old_state d.subscription.state (record d { subscription = s }) d' e)
set_to-IsMoved s suspended d d' same e =
    by_old s suspended d d' same (inr (inr (inr refl))) (λ h. cc h)
      (old_state d.subscription.state (record d { subscription = s }) d' e)

alive_made :
    (s : Subscription) (d : SubscriptionDocument) (old : SubscriptionState)
    → old ≢ deleted
    → (x : SubscriptionDocument) × ((elim old as (λ _. Result SubscriptionDocument) [
      | deleted ↦ err (new_cloud_error 400 "InvalidSubscriptionState" "")
      | _ ↦ ok (record d { subscription = s })
    ])
        ≡ ok x)
alive_made s d deleted alive = absurd (alive refl)
alive_made s d registered alive = (_, refl)
alive_made s d unregistered alive = (_, refl)
alive_made s d warned alive = (_, refl)
alive_made s d suspended alive = (_, refl)
alive_made s d (Document.unknown t) alive = (_, refl)

-- A move that may be asked for is made.
made :
    (s : Subscription) (d : SubscriptionDocument) (old new : SubscriptionState)
    → IsMove old new
    → (x : SubscriptionDocument) × (set_to new old s d ≡ ok x)
unfolding new_cloud_error
made s d old deleted move = (_, refl)
made s d old (Document.unknown t) (set alive (inl e)) = cc e
made s d old (Document.unknown t) (set alive (inr (inl e))) = cc e
made s d old (Document.unknown t) (set alive (inr (inr (inl e)))) = cc e
made s d old (Document.unknown t) (set alive (inr (inr (inr e)))) = cc e
made s d old registered (set alive _) = alive_made s d old alive
made s d old unregistered (set alive _) = alive_made s d old alive
made s d old warned (set alive _) = alive_made s d old alive
made s d old suspended (set alive _) = alive_made s d old alive

module _ {S : Type 0} (f : Config S) (unmarshal : String → Result Subscription)
    (marshal : Subscription → Result String) where
  -- A PUT of a subscription whose body reads as one is accepted exactly if its state may be asked for:
  -- Deleted always, and the other four unless the subscription was deleted. The document then has the
  -- subscription asked for; a request for Deleted, and no other, asks for the deletion of the clusters;
  -- the lease and the dequeues of the document are kept.
  pub read_subscription-IsMoved :
      (r : Request) (d : SubscriptionDocument) (s : Subscription)
      → unmarshal r.body ≡ ok s
      → ((d' : SubscriptionDocument)
          → read_subscription f unmarshal marshal r d ≡ ok d'
          → IsMoved s d d')
        × (IsMove d.subscription.state s.state
            → (d' : SubscriptionDocument) × (read_subscription f unmarshal marshal r d ≡ ok d'))
  unfolding read_subscription set_state
  read_subscription-IsMoved r d s body =
      let reads : read_subscription f unmarshal marshal r d
          ≡ set_to s.state d.subscription.state s d =
        rw (read_subscription, body) refl in
      (
        λ d' e. set_to-IsMoved s s.state d d' refl (sym reads ∙ e),
        λ move. let (x, e) = made s d d.subscription.state s.state move in (x, reads ∙ e),
      )
