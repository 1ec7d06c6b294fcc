-- ===== src/Client/Calls/Ends.antt =====
-- A request that returned waits no longer.
use jcode_go.Common.Channel.{closed}
use jcode_go.Common.{
  ℕ, ◌≡◌, refl, inl, inr, Bool, false, [], ◌∷◌, String, some, arith, ==_iff, Bool-cases,
}
use jcode_go.Errors.{GoError, sentinel, err_closed, err_disconnected, Result, ok, err}
use jcode_go.Protocol.Event.{ServerFrame}
use jcode_go.Client.Request.{Request, remove, abandon}
use jcode_go.Client.Request as Req
use jcode_go.Client.State.{Client, Table, alter}
use jcode_go.Client.Operations.{disconnect, drop_connection, remove_pending, stays}
use jcode_go.Client.Calls.{
  Waited, replied, reply_closed, gave_up, client_closed, CanTake, finish_request, write_request,
  told_write,
}

-- What the caller hears for the case that the select took.
abbrev pub heard : Waited → Result ServerFrame
heard (replied f) = ok f
heard reply_closed = err (sentinel err_disconnected)
heard (gave_up e) = err e
heard client_closed = err (sentinel err_closed)

remove-unlisted : (r : Request) → (remove r).listed ≡ false
unfolding remove
remove-unlisted r = refl

abandon-unlisted : (r : Request) → r.listed ≡ false → (abandon r).listed ≡ false
unfolding abandon
abandon-unlisted r h = ground arith

answered-unlisted :
    (r : Request) → Req.IsSound r → (f : ServerFrame) → r.frames ≡ f ∷ [] → r.listed ≡ false
answered-unlisted r h f is = ground arith

closed-unlisted : (r : Request) → Req.IsSound r → r.reply_done ≡ closed → r.listed ≡ false
closed-unlisted r h is = ground arith

alter-here :
    {A : Type 0} (f : A → A) (id : ℕ) (m : Table A) (a : A)
    → m id ≡ some a
    → alter f id m id ≡ some (f a)
alter-here f id m a is = ground (arith, is, ==_iff id id)

remove_pending-unlisted :
    (c : Client) (id : ℕ) (r : Request)
    → c.requests id ≡ some r
    → (r' : Request) × ((remove_pending c id).requests id ≡ some r') × (r'.listed ≡ false)
unfolding remove_pending
remove_pending-unlisted c id r is =
    (remove r, alter-here remove id c.requests r is, remove-unlisted r)

-- However a request ends, by its reply, a lost connection, its context or the close of the client,
-- the caller hears the outcome of that case, and the request has left the map of pending requests.
pub finish_request-unlisted :
    (c : Client) (id : ℕ) (req : String) (w : Waited) (r : Request)
    → c.requests id ≡ some r
    → Req.IsSound r
    → CanTake r w
    → ((finish_request c id req w).1 ≡ heard w)
      × ((r' : Request) × ((finish_request c id req w).0.requests id ≡ some r')
          × (r'.listed ≡ false))
unfolding finish_request
finish_request-unlisted c id req (replied f) r is h t = (refl, (r, is, answered-unlisted r h f t))
finish_request-unlisted c id req reply_closed r is h t = (refl, (r, is, closed-unlisted r h t.1))
finish_request-unlisted c id req (gave_up e) r is h t = (refl, remove_pending-unlisted c id r is)
finish_request-unlisted c id req client_closed r is h t = (refl, remove_pending-unlisted c id r is)

disconnect-unlisted :
    (c : Client) (e : GoError) (terminal : Bool) (id : ℕ) (r : Request)
    → c.requests id ≡ some r
    → r.listed ≡ false
    → (r' : Request) × ((disconnect c e terminal).requests id ≡ some r') × (r'.listed ≡ false)
unfolding disconnect drop_connection
disconnect-unlisted c e terminal id r is l = elim (Bool-cases (stays c.state terminal)) [
  | inl h ↦ simp h (r, is, l)
  | inr h ↦ simp h (abandon r, simp is refl, abandon-unlisted r l)
]

-- A request that could not be written returns the error, and has left the map as well.
pub write_request-unlisted :
    (c : Client) (id : ℕ) (req : String) (e : GoError) (r : Request)
    → c.requests id ≡ some r
    → ((write_request c id req (some e)).1 ≡ some e)
      × ((r' : Request) × ((write_request c id req (some e)).0.requests id ≡ some r')
          × (r'.listed ≡ false))
unfolding write_request
write_request-unlisted c id req e r is =
    let d = told_write c req (some e) in
    let (r', is', l) = remove_pending-unlisted d id r is in
    (refl, disconnect-unlisted (remove_pending d id) e false id r' is' l)
