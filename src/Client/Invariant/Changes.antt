-- ===== src/Client/Invariant/Changes.antt =====
-- The kinds of change that the sections of the client make, each of which keeps the invariant.
use jcode_go.Common.Channel.{closed}
use jcode_go.Common.{ℕ, ◌≡◌, refl, ◌∙◌, Option, arith}
use jcode_go.Errors.{GoError}
use jcode_go.Client.Subscriber.{
  Subscriber, is_signalled, new_subscriber, deliver, close_listed, fail_turn,
  new_subscriber-IsSound, deliver-IsSound, close_listed-IsSound, fail_turn-IsSound,
}
use jcode_go.Client.Subscriber as Sub
use jcode_go.Client.Request.{
  Request, new_request, new_request-IsSound, reply_to, reply_to-IsSound, remove, remove-IsSound,
  abandon, abandon-IsSound,
}
use jcode_go.Client.Request as Req
use jcode_go.Client.State.{Client, Table, alter, each}
use jcode_go.Client.Operations.{set_instance, detach_instance}
use jcode_go.Client.System.{
  World, Closer, unbegun, announced, signalled, drained, swept, ended, with_client, take_event,
  take_error,
}
use jcode_go.Client.Invariant.{Every, Fresh, IsUnlisted, Follows, Inv}
use jcode_go.Client.Invariant.Tables.{Every-each, Every-alter, Fresh-each, Fresh-alter}

pub take_event-IsSound : (s : Subscriber) → Sub.IsSound s → Sub.IsSound (take_event s)
unfolding take_event
take_event-IsSound s h = ground arith

pub take_error-IsSound : (s : Subscriber) → Sub.IsSound s → Sub.IsSound (take_error s)
unfolding take_error
take_error-IsSound s h = ground arith

-- The functions on a subscriber that put none back into the map.
abbrev pub KeepsUnlisted : (Subscriber → Subscriber) → Type 0
KeepsUnlisted f = (s : Subscriber) → IsUnlisted s → IsUnlisted (f s)

pub deliver-IsUnlisted : (e : _) → KeepsUnlisted (deliver e)
unfolding deliver
deliver-IsUnlisted e s h = ground arith

pub close_listed-IsUnlisted : (e : Option GoError) → KeepsUnlisted (close_listed e)
unfolding close_listed
close_listed-IsUnlisted e s h = ground arith

pub fail_turn-IsUnlisted : (e : GoError) → KeepsUnlisted (fail_turn e)
unfolding fail_turn
fail_turn-IsUnlisted e s h = ground arith

pub take_event-IsUnlisted : KeepsUnlisted take_event
unfolding take_event
take_event-IsUnlisted s h = ground arith

pub take_error-IsUnlisted : KeepsUnlisted take_error
unfolding take_error
take_error-IsUnlisted s h = ground arith

pub close_listed-unlists : (e : Option GoError) (s : Subscriber) → IsUnlisted (close_listed e s)
unfolding close_listed
close_listed-unlists e s = ground arith

pub Follows-keeps :
    (k : Closer) (c d : Client)
    → d.closed ≡ c.closed
    → d.close_once ≡ c.close_once
    → (c.closed ≡ closed → Every IsUnlisted c.subs → Every IsUnlisted d.subs)
    → Follows k c
    → Follows k d
Follows-keeps unbegun c d p q r f = (p ∙ f.0, q ∙ f.1)
Follows-keeps (announced i e) c d p q r f = (p ∙ f.0, q ∙ f.1)
Follows-keeps (signalled i e) c d p q r f = (p ∙ f.0, q ∙ f.1)
Follows-keeps (drained i e) c d p q r f = (p ∙ f.0, q ∙ f.1)
Follows-keeps (swept i) c d p q r f = (p ∙ f.0, q ∙ f.1, r f.0 f.2)
Follows-keeps ended c d p q r f = (p ∙ f.0, q ∙ f.1, r f.0 f.2)

-- A change of the table of subscribers alone.
pub subs-Inv :
    (w : World) (m : Table Subscriber)
    → Every Sub.IsSound m
    → Fresh w.client.next_sub m
    → (Every IsUnlisted w.client.subs → Every IsUnlisted m)
    → Inv w
    → Inv (with_client w (record (w.client) { subs = m }))
subs-Inv w m sound fresh unlisted i = record {
  subscribers = sound;
  requests = i.requests;
  fresh_subs = fresh;
  fresh_ids = i.fresh_ids;
  close =
      Follows-keeps w.closer w.client (record (w.client) { subs = m }) refl refl (λ _. unlisted)
        i.close;
}

-- One function on every subscriber, or on one.
pub each-Inv :
    (w : World) (f : Subscriber → Subscriber)
    → ((s : Subscriber) → Sub.IsSound s → Sub.IsSound (f s))
    → KeepsUnlisted f
    → Inv w
    → Inv (with_client w (record (w.client) { subs = each f w.client.subs }))
each-Inv w f sound unlisted i =
    subs-Inv w (each f w.client.subs) (Every-each Sub.IsSound f w.client.subs sound i.subscribers)
      (Fresh-each f w.client.next_sub w.client.subs i.fresh_subs)
      (Every-each IsUnlisted f w.client.subs unlisted) i

pub alter-Inv :
    (w : World) (f : Subscriber → Subscriber) (id : ℕ)
    → ((s : Subscriber) → Sub.IsSound s → Sub.IsSound (f s))
    → KeepsUnlisted f
    → Inv w
    → Inv (with_client w (record (w.client) { subs = alter f id w.client.subs }))
alter-Inv w f id sound unlisted i =
    subs-Inv w (alter f id w.client.subs)
      (Every-alter Sub.IsSound f id w.client.subs sound i.subscribers)
      (Fresh-alter f id w.client.next_sub w.client.subs i.fresh_subs)
      (Every-alter IsUnlisted f id w.client.subs unlisted) i

-- A change of the table of requests alone.
pub requests-Inv :
    (w : World) (m : Table Request)
    → Every Req.IsSound m
    → Fresh w.client.next_id m
    → Inv w
    → Inv (with_client w (record (w.client) { requests = m }))
requests-Inv w m sound fresh i = record {
  subscribers = i.subscribers;
  requests = sound;
  fresh_subs = i.fresh_subs;
  fresh_ids = fresh;
  close =
      Follows-keeps w.closer w.client (record (w.client) { requests = m }) refl refl (λ _ h. h)
        i.close;
}

-- A section that leaves the tables, the counters and the closing alone.
abbrev pub SameCore : Client → Client → Type 0
SameCore c d =
    (d.subs ≡ c.subs)
    × (d.requests ≡ c.requests)
    × (d.next_sub ≡ c.next_sub)
    × (d.next_id ≡ c.next_id)
    × (d.closed ≡ c.closed)
    × (d.close_once ≡ c.close_once)

pub same-Inv : (w : World) (d : Client) → SameCore w.client d → Inv w → Inv (with_client w d)
same-Inv w d (subs, reqs, nsub, nid, cl, once) i = record {
  subscribers = rw subs i.subscribers;
  requests = rw reqs i.requests;
  fresh_subs = rw (subs, nsub) i.fresh_subs;
  fresh_ids = rw (reqs, nid) i.fresh_ids;
  close = Follows-keeps w.closer w.client d cl once (λ _ h. rw subs h) i.close;
}

pub set_instance-SameCore : (c : Client) (i : ℕ) (m : Option ℕ) → SameCore c (set_instance c i m)
unfolding set_instance
set_instance-SameCore c i m = ground arith

pub detach_instance-SameCore : (c : Client) → SameCore c (detach_instance c).0
unfolding detach_instance
detach_instance-SameCore c = ground arith
