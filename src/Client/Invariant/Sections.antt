-- ===== src/Client/Invariant/Sections.antt =====
-- The sections of the client's methods keep its invariant.
use mathlib.Core.Path.{subst}
use jcode_go.Common.{ℕ, ◌+◌, ◌^◌, ◌<◌, ◌≡◌, refl, sym, ◌⊎◌, inl, inr, Bool, none, some, arith}
use jcode_go.Errors.{GoError, sentinel, err_bridge_exited, ok}
use jcode_go.Client.Subscriber.{
  Subscriber, is_signalled, new_subscriber, deliver, close_listed, fail_turn,
  new_subscriber-IsSound, new_subscriber-unlisted, deliver-IsSound, close_listed-IsSound,
  fail_turn-IsSound,
}
use jcode_go.Client.Subscriber as Sub
use jcode_go.Client.Request.{
  Request, new_request, new_request-IsSound, reply_to, reply_to-IsSound, remove, remove-IsSound,
  abandon, abandon-IsSound,
}
use jcode_go.Client.Request as Req
use jcode_go.Client.State.{Client, alter, each}
use jcode_go.Client.Operations.{
  bump, subscribe_owned, fail_turn_subscribers, begin_request, enter_request, bridge_exits,
  abandon_requests, close_subscribers,
}
use jcode_go.Client.System.{World, with_client}
use jcode_go.Client.Invariant.{IsUnlisted, Follows, Inv}
use jcode_go.Client.Invariant.Tables.{
  Every-each, Every-alter, Every-enter, Fresh-each, Fresh-alter, Fresh-enter,
}
use jcode_go.Client.Invariant.Changes.{
  close_listed-IsUnlisted, fail_turn-IsUnlisted, Follows-keeps, each-Inv, requests-Inv, same-Inv,
}

pub bump-exact : (n : ℕ) → n + 1 < 2 ^ 64 → bump n ≡ n + 1
bump-exact n h = omega arith

-- A new subscription: its number is new, and on a closed client it is not in the map.
pub subscribe_owned-Inv :
    (w : World) (buffer : ℕ) (turn : Bool)
    → w.client.next_sub + 1 < 2 ^ 64
    → Inv w
    → Inv (with_client w (subscribe_owned w.client buffer turn).0)
unfolding subscribe_owned
subscribe_owned-Inv w buffer turn h i = record {
  subscribers =
      Every-enter Sub.IsSound (bump w.client.next_sub) fresh w.client.subs
        (new_subscriber-IsSound (is_signalled w.client.closed) buffer turn) i.subscribers;
  requests = i.requests;
  fresh_subs =
      Fresh-enter fresh w.client.next_sub (bump w.client.next_sub) w.client.subs
        (omega (arith, bump-exact w.client.next_sub h)) i.fresh_subs;
  fresh_ids = i.fresh_ids;
  close =
      Follows-keeps w.closer w.client (subscribe_owned w.client buffer turn).0 refl refl
        (λ c.
          Every-enter IsUnlisted (bump w.client.next_sub) fresh w.client.subs
            (new_subscriber-unlisted w.client.closed buffer turn c))
        i.close;
}
  where
    fresh : Subscriber
    fresh = new_subscriber (is_signalled w.client.closed) buffer turn

pub begin_request-eq-ok :
    (c : Client) (internal observed : Bool) (entered : Client × ℕ)
    → begin_request c internal observed ≡ ok entered
    → enter_request c observed ≡ entered
unfolding begin_request
begin_request-eq-ok c internal observed entered h = ground arith

pub enter_request-Inv :
    (w : World) (observed : Bool)
    → w.client.next_id + 1 < 2 ^ 64
    → Inv w
    → Inv (with_client w (enter_request w.client observed).0)
unfolding enter_request
enter_request-Inv w observed h i = record {
  subscribers = i.subscribers;
  requests =
      Every-enter Req.IsSound (bump w.client.next_id) (new_request observed) w.client.requests
        (new_request-IsSound observed) i.requests;
  fresh_subs = i.fresh_subs;
  fresh_ids =
      Fresh-enter (new_request observed) w.client.next_id (bump w.client.next_id) w.client.requests
        (omega (arith, bump-exact w.client.next_id h)) i.fresh_ids;
  close =
      Follows-keeps w.closer w.client (enter_request w.client observed).0 refl refl (λ _ u. u)
        i.close;
}

pub alter_requests-Inv :
    (w : World) (f : Request → Request) (id : ℕ)
    → ((r : Request) → Req.IsSound r → Req.IsSound (f r))
    → Inv w
    → Inv (with_client w (record (w.client) { requests = alter f id w.client.requests }))
alter_requests-Inv w f id sound i =
    requests-Inv w (alter f id w.client.requests)
      (Every-alter Req.IsSound f id w.client.requests sound i.requests)
      (Fresh-alter f id w.client.next_id w.client.requests i.fresh_ids) i

pub abandon_requests-Inv : (w : World) → Inv w → Inv (with_client w (abandon_requests w.client))
unfolding abandon_requests
abandon_requests-Inv w i =
    requests-Inv w (each abandon w.client.requests)
      (Every-each Req.IsSound abandon w.client.requests abandon-IsSound i.requests)
      (Fresh-each abandon w.client.next_id w.client.requests i.fresh_ids) i

pub close_subscribers-Inv :
    (w : World) (e : GoError) → Inv w → Inv (with_client w (close_subscribers w.client e))
unfolding close_subscribers
close_subscribers-Inv w e =
    each-Inv w (close_listed (some e)) (close_listed-IsSound (some e))
      (close_listed-IsUnlisted (some e))

pub fail_turn_subscribers-Inv :
    (w : World) (e : GoError) → Inv w → Inv (with_client w (fail_turn_subscribers e w.client))
unfolding fail_turn_subscribers
fail_turn_subscribers-Inv w e =
    each-Inv w (fail_turn e) (fail_turn-IsSound e) (fail_turn-IsUnlisted e)

-- The end of the bridge changes nothing, or fails the turns and takes its monitor away.
pub bridge_exits-cases :
    (c : Client) (m : ℕ)
    → (bridge_exits c m ≡ c)
      ⊎ (bridge_exits c m
          ≡ record (fail_turn_subscribers (sentinel err_bridge_exited) c) { monitor = none })
unfolding bridge_exits
bridge_exits-cases c m = ground arith

pub bridge_exits-Inv : (w : World) (m : ℕ) → Inv w → Inv (with_client w (bridge_exits w.client m))
bridge_exits-Inv w m i = elim (bridge_exits-cases w.client m) [
  | inl e ↦ subst (λ c. Inv (with_client w c)) (sym e) i
  | inr e ↦
      subst (λ c. Inv (with_client w c)) (sym e)
        (same-Inv (with_client w (fail_turn_subscribers (sentinel err_bridge_exited) w.client))
          (record (fail_turn_subscribers (sentinel err_bridge_exited) w.client) { monitor = none })
          (refl, refl, refl, refl, refl, refl)
          (fail_turn_subscribers-Inv w (sentinel err_bridge_exited) i))
]

-- The sections of `closeWith`: the tables, and then how far it has come.
pub re_close :
    (w v : World)
    → Inv w
    → v.client.subs ≡ w.client.subs
    → v.client.requests ≡ w.client.requests
    → v.client.next_sub ≡ w.client.next_sub
    → v.client.next_id ≡ w.client.next_id
    → Follows v.closer v.client
    → Inv v
re_close w v i subs reqs nsub nid f = record {
  subscribers = rw subs i.subscribers;
  requests = rw reqs i.requests;
  fresh_subs = rw (subs, nsub) i.fresh_subs;
  fresh_ids = rw (reqs, nid) i.fresh_ids;
  close = f;
}
