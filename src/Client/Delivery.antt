-- ===== src/Client/Delivery.antt =====
-- What one frame of the server does to each subscription and each pending request.
use mathlib.Core.Path.{fun_ext, subst}
use jcode_go.Common.Channel.{pending, closed}
use jcode_go.Common.{
  ℕ, ◌<◌, ◌≤◌, ◌≡◌, ◌≢◌, refl, ap, ◌↔◌, true, false, [], ◌∷◌, ◌++◌, some, arith, length, ◌==◌,
  if◌then◌else◌, ==_iff, Bool-cases, ◌⊎◌, inl, inr,
}
use jcode_go.Errors.{sentinel, err_subscriber_overflow}
use jcode_go.Protocol.Event.{ServerFrame}
use jcode_go.Session.TypedEvent.{Event}
use jcode_go.Client.Subscriber.{Subscriber, deliver, Closed}
use jcode_go.Client.Subscriber as Sub
use jcode_go.Client.Request.{Request, reply_to}
use jcode_go.Client.Request as Req
use jcode_go.Client.State.{Client, alter}
use jcode_go.Client.Operations.{dispatch_event, dispatch_reply, subscription_error}

deliver-unlisted : (e : Event) (s : Subscriber) → s.listed ≡ false → deliver e s ≡ s
unfolding deliver
deliver-unlisted e s l = simp l

room-cases : (s : Subscriber) → (length s.events < s.room) ⊎ (s.room ≤ length s.events)
room-cases s = ground arith

module _ (c : Client) (e : Event) (id : ℕ) (s : Subscriber) (is : c.subs id ≡ some s) where
  deliver-room :
      Sub.IsSound s
      → s.listed ≡ true
      → length s.events < s.room
      → deliver e s ≡ record s { events = s.events ++ e ∷ [] }
  unfolding deliver
  deliver-room h l r = ground arith

  deliver-full :
      Sub.IsSound s
      → s.listed ≡ true
      → s.room ≤ length s.events
      → ((deliver e s).events ≡ s.events)
        × ((deliver e s).errors ≡ sentinel err_subscriber_overflow ∷ [])
        × ((deliver e s).err ≡ some (sentinel err_subscriber_overflow))
        × ((deliver e s).listed ≡ false)
        × ((deliver e s).events_done ≡ closed)
  unfolding deliver
  deliver-full h l r = ground arith

  -- An asynchronous event reaches each subscription by itself. One in the map that has room gets it
  -- behind what is queued and nothing else changes; one whose queue is full leaves the map with its
  -- queue kept for the reader, its channel closed and ErrSubscriberOverflow as its error; one that
  -- left the map before is not touched.
  pub dispatch_event-deliver :
      Sub.IsSound s
      → ((s.listed ≡ true)
          × (length s.events < s.room)
          × ((dispatch_event c e).subs id ≡ some (record s { events = s.events ++ e ∷ [] })))
        ⊎ ((s.listed ≡ true)
            × (s.room ≤ length s.events)
            × ((s' : Subscriber) × ((dispatch_event c e).subs id ≡ some s')
                × (s'.events ≡ s.events)
                × (s'.listed ≡ false)
                × (s'.events_done ≡ closed)
                × (s'.errors ≡ sentinel err_subscriber_overflow ∷ [])
                × (subscription_error (dispatch_event c e) id ≡ sentinel err_subscriber_overflow)))
        ⊎ ((s.listed ≡ false) × ((dispatch_event c e).subs id ≡ some s))
  unfolding dispatch_event subscription_error
  dispatch_event-deliver h = elim (Bool-cases s.listed) [
    | inr l ↦ inr (inr (l, rw is (ap some (deliver-unlisted e s l))))
    | inl l ↦ elim (room-cases s) [
      | inl r ↦ inl (l, r, rw is (ap some (deliver-room h l r)))
      | inr r ↦
          let (kept, told, because, gone, shut) = deliver-full h l r in
          inr (
            inl (
              l,
              r,
              (
                deliver e s,
                rw is,
                kept,
                gone,
                shut,
                told,
                rw (is, subscription_error) (rw because),
              ),
            ))
    ]
  ]

module _ (c : Client) (id : ℕ) (f : ServerFrame) (r : Request) (is : c.requests id ≡ some r) where
  reply_to-listed :
      Req.IsSound r
      → r.listed ≡ true
      → ((reply_to f r).frames ≡ f ∷ [])
        × ((reply_to f r).listed ≡ false)
        × ((reply_to f r).reply_done ≡ pending)
        × ((reply_to f r).told ≡ (if r.observed then r.told ++ f ∷ [] else r.told))
  unfolding reply_to
  reply_to-listed h l = ground arith

  reply_to-again : (g : ServerFrame) → reply_to g (reply_to f r) ≡ reply_to f r
  unfolding reply_to
  reply_to-again g = ground arith

  twice-here :
      (g : ServerFrame)
      → ((id == id) ≡ true) ↔ (id ≡ id)
      → alter (reply_to g) id (alter (reply_to f) id c.requests) id
        ≡ alter (reply_to f) id c.requests id
  twice-here g same = rw (same.1 refl, is) (ap some (reply_to-again g))

  replied-twice :
      (g : ServerFrame) (j : ℕ)
      → (id == j ≡ true) ⊎ (id == j ≡ false)
      → alter (reply_to g) id (alter (reply_to f) id c.requests) j
        ≡ alter (reply_to f) id c.requests j
  replied-twice g j (inl h) =
      subst
        (λ k.
          alter (reply_to g) id (alter (reply_to f) id c.requests) k
          ≡ alter (reply_to f) id c.requests k)
        ((==_iff id j).0 h) (twice-here g (==_iff id id))
  replied-twice g j (inr h) = simp h

  -- A reply reaches the one request that waits under its number, which leaves the map with exactly
  -- that frame in its channel, and its observer is called with it. No other request changes, and
  -- another reply under the number changes nothing.
  pub dispatch_reply_once :
      (g : ServerFrame) (j : ℕ)
      → Req.IsSound r
      → r.listed ≡ true
      → id ≢ j
      → ((r' : Request) × ((dispatch_reply c id f).requests id ≡ some r')
          × (r'.frames ≡ f ∷ [])
          × (r'.listed ≡ false)
          × (r'.reply_done ≡ pending)
          × (r'.told ≡ (if r.observed then r.told ++ f ∷ [] else r.told)))
        × ((dispatch_reply c id f).requests j ≡ c.requests j)
        × (dispatch_reply (dispatch_reply c id f) id g ≡ dispatch_reply c id f)
  unfolding dispatch_reply
  dispatch_reply_once g j h l n =
      let (frames, gone, open', told) = reply_to-listed h l in
      (
        (reply_to f r, ground (arith, is, ==_iff id id), frames, gone, open', told),
        ground arith,
        ap (λ m. record c { requests = m }) (fun_ext λ k. replied-twice g k (Bool-cases (id == k))),
      )
