-- ===== src/Client/Invariant/Steps.antt =====
-- Every section of every goroutine keeps the invariant of the client.
use mathlib.Core.Path.{subst}
use jcode_go.Common.Channel.{pending}
use jcode_go.Common.{ℕ, ◌≡◌, refl, ◌∙◌, true, false, Option, none, some, arith}
use jcode_go.Errors.{GoError}
use jcode_go.Client.Options.{Options}
use jcode_go.Client.Subscriber.{
  Subscriber, deliver, close_listed, deliver-IsSound, close_listed-IsSound,
}
use jcode_go.Client.Request.{reply_to, reply_to-IsSound, remove, remove-IsSound}
use jcode_go.Client.State.{Client, Table, each, set_state, new_client}
use jcode_go.Client.Operations.{
  unsubscribe, dispatch_reply, dispatch_event, remove_pending, set_instance, detach_instance,
  begin_close, signal_close, abandon_requests, close_subscribers, end_close,
}
use jcode_go.Client.System.{
  World, Closer, unbegun, announced, signalled, drained, swept, ended, with_client, take_event,
  take_error, Step, subscribes, unsubscribes, takes_event, takes_error, reads_event, reads_reply,
  requests, gives_up, sets_state, abandons, drops_all, drops_turns, adopts, detaches, bridge_ends,
  close_begins, close_signals, close_drains, close_sweeps, close_ends, Reach, here, next, start,
}
use jcode_go.Client.Invariant.{Holds, Every, IsUnlisted, Follows, Inv}
use jcode_go.Client.Invariant.Changes.{
  take_event-IsSound, take_error-IsSound, deliver-IsUnlisted, close_listed-IsUnlisted,
  take_event-IsUnlisted, take_error-IsUnlisted, close_listed-unlists, each-Inv, alter-Inv, same-Inv,
  set_instance-SameCore, detach_instance-SameCore,
}
use jcode_go.Client.Invariant.Sections.{
  subscribe_owned-Inv, begin_request-eq-ok, enter_request-Inv, alter_requests-Inv,
  abandon_requests-Inv, close_subscribers-Inv, fail_turn_subscribers-Inv, bridge_exits-Inv,
  re_close,
}

unbegun_open : (k : Closer) (c : Client) → c.close_once ≡ false → Follows k c → c.closed ≡ pending
unbegun_open unbegun c o f = f.0
unbegun_open (announced i e) c o f = f.0
unbegun_open (signalled i e) c o f = cc
unbegun_open (drained i e) c o f = cc
unbegun_open (swept i) c o f = cc
unbegun_open ended c o f = cc

-- The fields of a client that `closeWith` leaves alone in its first section.
begin_close-fields :
    (c : Client)
    → ((begin_close c).subs ≡ c.subs)
      × ((begin_close c).requests ≡ c.requests)
      × ((begin_close c).next_sub ≡ c.next_sub)
      × ((begin_close c).next_id ≡ c.next_id)
      × ((begin_close c).closed ≡ c.closed)
      × ((begin_close c).close_once ≡ true)
unfolding begin_close
begin_close-fields c = ground arith

begin_close-Inv :
    (w : World) (k : Closer)
    → Inv w
    → Follows k (begin_close w.client)
    → Inv (record { client = begin_close w.client; closer = k })
begin_close-Inv w k i f =
    let (subs, reqs, nsub, nid, cl, once) = begin_close-fields w.client in
    re_close w (record { client = begin_close w.client; closer = k }) i subs reqs nsub nid f

at_phase : {w : World} {k : Closer} → Inv w → w.closer ≡ k → Follows k w.client
at_phase {w} i e = subst (λ k. Follows k w.client) e i.close

signal_close-Inv :
    (w : World) (i : Option ℕ) (e : GoError)
    → Inv w
    → Follows (announced i e) w.client
    → Inv (record { client = signal_close w.client e; closer = signalled i e })
unfolding signal_close
signal_close-Inv w i e v f =
    re_close w (record { client = signal_close w.client e; closer = signalled i e }) v refl refl
      refl refl (rw f.0 refl, f.1)

abandon-closer-Inv :
    (w : World) (i : Option ℕ) (e : GoError)
    → Inv w
    → Follows (signalled i e) w.client
    → Inv (record { client = abandon_requests w.client; closer = drained i e })
unfolding abandon_requests
abandon-closer-Inv w i e v f =
    let a = abandon_requests-Inv w v in
    re_close (with_client w (abandon_requests w.client))
      (record { client = abandon_requests w.client; closer = drained i e }) a refl refl refl refl f

sweep-Inv :
    (w : World) (i : Option ℕ) (e : GoError)
    → Inv w
    → Follows (drained i e) w.client
    → Inv (record { client = close_subscribers w.client e; closer = swept i })
unfolding close_subscribers
sweep-Inv w i e v f =
    re_close (with_client w (close_subscribers w.client e))
      (record { client = close_subscribers w.client e; closer = swept i })
      (close_subscribers-Inv w e v) refl refl refl refl (f.0, f.1, all_unlisted w.client.subs)
  where
    unlisted :
        (o : Option Subscriber) → Holds IsUnlisted (each (close_listed (some e)) (λ (k : ℕ). o) 0)
    unlisted none = tt
    unlisted (some s) = close_listed-unlists (some e) s

    all_unlisted : (m : Table Subscriber) → Every IsUnlisted (each (close_listed (some e)) m)
    all_unlisted m id = unlisted (m id)

end_close-Inv :
    (w : World) (i : Option ℕ)
    → Inv w
    → Follows (swept i) w.client
    → Inv (record { client = end_close w.client i; closer = ended })
unfolding end_close
end_close-Inv w i v f =
    re_close w (record { client = end_close w.client i; closer = ended }) v refl refl refl refl f

start-Inv : (o : Options) → Inv (start o)
unfolding start new_client
start-Inv o = record {
  subscribers = λ id. tt;
  requests = λ id. tt;
  fresh_subs = λ id l. refl;
  fresh_ids = λ id l. refl;
  close = (refl, refl);
}

pub Step-world-Inv : {w v : World} → Step w v → Inv w → Inv v
unfolding unsubscribe dispatch_event dispatch_reply remove_pending
Step-world-Inv {w} (subscribes buffer turn h) i = subscribe_owned-Inv w buffer turn h i
Step-world-Inv {w} (unsubscribes id) i =
    alter-Inv w (close_listed none) id (close_listed-IsSound none) (close_listed-IsUnlisted none) i
Step-world-Inv {w} (takes_event id) i =
    alter-Inv w take_event id take_event-IsSound take_event-IsUnlisted i
Step-world-Inv {w} (takes_error id) i =
    alter-Inv w take_error id take_error-IsSound take_error-IsUnlisted i
Step-world-Inv {w} (reads_event e) i =
    each-Inv w (deliver e) (deliver-IsSound e) (deliver-IsUnlisted e) i
Step-world-Inv {w} (reads_reply id f) i =
    alter_requests-Inv w (reply_to f) id (reply_to-IsSound f) i
Step-world-Inv {w} (requests internal observed entered h e) i =
    subst (λ p. Inv (with_client w p.0)) (begin_request-eq-ok w.client internal observed entered e)
      (enter_request-Inv w observed h i)
Step-world-Inv {w} (gives_up id) i = alter_requests-Inv w remove id remove-IsSound i
Step-world-Inv {w} (sets_state s) i =
    same-Inv w (set_state w.client s) (refl, refl, refl, refl, refl, refl) i
Step-world-Inv {w} abandons i = abandon_requests-Inv w i
Step-world-Inv {w} (drops_all e) i = close_subscribers-Inv w e i
Step-world-Inv {w} (drops_turns e) i = fail_turn_subscribers-Inv w e i
Step-world-Inv {w} (adopts k m) i =
    same-Inv w (set_instance w.client k m) (set_instance-SameCore w.client k m) i
Step-world-Inv {w} detaches i =
    same-Inv w (detach_instance w.client).0 (detach_instance-SameCore w.client) i
Step-world-Inv {w} (bridge_ends m) i = bridge_exits-Inv w m i
Step-world-Inv {w} (close_begins e h) i =
    let (subs, reqs, nsub, nid, cl, once) = begin_close-fields w.client in
    begin_close-Inv w (announced w.client.instance_id e) i
      (cl ∙ unbegun_open w.closer w.client h i.close, once)
Step-world-Inv {w} (close_signals k e h) i = signal_close-Inv w k e i (at_phase i h)
Step-world-Inv {w} (close_drains k e h) i = abandon-closer-Inv w k e i (at_phase i h)
Step-world-Inv {w} (close_sweeps k e h) i = sweep-Inv w k e i (at_phase i h)
Step-world-Inv {w} (close_ends k h) i = end_close-Inv w k i (at_phase i h)

-- Whatever the goroutines of a client do, in any order: no channel of a subscriber or of a request
-- is closed twice or written after it was closed, no event queue outgrows its room, no request
-- gets two replies, no entry has a number above its counter, and after `closeWith` has swept the map of
-- subscribers none is ever in it again.
pub Reach-world-Inv : (o : Options) {w : World} → Reach (start o) w → Inv w
Reach-world-Inv o here = start-Inv o
Reach-world-Inv o (next r st) = Step-world-Inv st (Reach-world-Inv o r)
