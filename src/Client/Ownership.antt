-- ===== src/Client/Ownership.antt =====
-- Who shuts the private runtime down.
use jcode_go.Common.{
  ℕ, ◌≡◌, refl, ap, ◌∙◌, true, false, List, [], ◌∷◌, ◌++◌, Option, none, some, arith,
}
use jcode_go.Errors.{GoError}
use jcode_go.Client.State.{Client}
use jcode_go.Client.Operations.{
  set_instance, detach_instance, close_with, is_ending, begin_close, signal_close, abandon_requests,
  close_subscribers, end_close, shut_down,
}

begin_close-owned :
    (c : Client)
    → ((begin_close c).stopped ≡ c.stopped)
      × ((begin_close c).instance_id ≡ none)
      × ((begin_close c).close_once ≡ true)
unfolding begin_close
begin_close-owned c = ground arith

-- The sections of `closeWith` after the first.
unfoldable pub close_sections : Option ℕ → Client → GoError → Client
close_sections i c e = end_close (close_subscribers (abandon_requests (signal_close c e)) e) i

close_sections_owned :
    (i : Option ℕ) (c : Client) (e : GoError)
    → ((close_sections i c e).stopped ≡ shut_down i c.stopped)
      × ((close_sections i c e).instance_id ≡ c.instance_id)
      × ((close_sections i c e).close_once ≡ c.close_once)
unfolding close_sections signal_close abandon_requests close_subscribers end_close
close_sections_owned i c e = (refl, refl, refl)

pub close_with-first :
    (c : Client) (e : GoError)
    → c.close_once ≡ false
    → close_with c e ≡ close_sections c.instance_id (begin_close c) e
unfolding close_with close_sections
close_with-first c e h = simp h

-- The first `closeWith`.
close_with-owned :
    (c : Client) (e : GoError)
    → c.close_once ≡ false
    → ((close_with c e).stopped ≡ shut_down c.instance_id c.stopped)
      × ((close_with c e).instance_id ≡ none)
      × ((close_with c e).close_once ≡ true)
close_with-owned c e h =
    let (stopped, gone, once) = begin_close-owned c in
    let (stopped', gone', once') = close_sections_owned c.instance_id (begin_close c) e in
    let first = close_with-first c e h in
    (
      ap (λ d. d.stopped) first ∙ (stopped' ∙ ap (shut_down c.instance_id) stopped),
      ap (λ d. d.instance_id) first ∙ (gone' ∙ gone),
      ap (λ d. d.close_once) first ∙ (once' ∙ once),
    )

close_with-again : (c : Client) (e : GoError) → c.close_once ≡ true → close_with c e ≡ c
unfolding close_with
close_with-again c e h = simp h

detach_instance-owned :
    (c : Client) (i : ℕ)
    → c.instance_id ≡ some i
    → is_ending c.state ≡ false
    → ((detach_instance c).1 ≡ some i)
      × ((detach_instance c).0.instance_id ≡ none)
      × ((detach_instance c).0.stopped ≡ c.stopped)
      × ((detach_instance c).0.close_once ≡ c.close_once)
unfolding detach_instance
detach_instance-owned c i h s = ground arith

detach_instance-none : (c : Client) → c.instance_id ≡ none → (detach_instance c).1 ≡ none
unfolding detach_instance
detach_instance-none c h = ground arith

set_instance-owned :
    (c : Client) (i : ℕ) (m : Option ℕ)
    → ((set_instance c i m).instance_id ≡ some i)
      × ((set_instance c i m).stopped ≡ c.stopped)
      × ((set_instance c i m).close_once ≡ c.close_once)
unfolding set_instance
set_instance-owned c i m = ground arith

-- A client that owns an instance and is not close_sections gives it up once: `DetachInstance` returns it,
-- and after that `DetachInstance` returns nothing and `Close` shuts nothing down.
pub detach_instance-close_with :
    (c : Client) (i : ℕ) (e : GoError)
    → c.instance_id ≡ some i
    → is_ending c.state ≡ false
    → c.close_once ≡ false
    → ((detach_instance c).1 ≡ some i)
      × ((detach_instance (detach_instance c).0).1 ≡ none)
      × ((close_with (detach_instance c).0 e).stopped ≡ c.stopped)
detach_instance-close_with c i e h s o =
    let d = (detach_instance c).0 in
    let (given, gone, kept, once) = detach_instance-owned c i h s in
    (
      given,
      detach_instance-none d gone,
      (close_with-owned d e (once ∙ o)).0 ∙ (ap (λ k. shut_down k d.stopped) gone ∙ kept),
    )

-- An instance that the client took over and did not give up is shut down by the first `Close`, once:
-- a second `Close` changes nothing, and the instance can no longer be detached.
pub close_with-set_instance :
    (c : Client) (i : ℕ) (m : Option ℕ) (e e' : GoError)
    → c.close_once ≡ false
    → let d = close_with (set_instance c i m) e in
      (d.stopped ≡ c.stopped ++ i ∷ []) × (close_with d e' ≡ d) × ((detach_instance d).1 ≡ none)
close_with-set_instance c i m e e' h =
    let (owned, stopped, once) = set_instance-owned c i m in
    let (shut, gone, closed) = close_with-owned (set_instance c i m) e (once ∙ h) in
    (
      shut
          ∙ (ap (λ k. shut_down k (set_instance c i m).stopped) owned
              ∙ ap (λ (l : List ℕ). l ++ i ∷ []) stopped),
      close_with-again (close_with (set_instance c i m) e) e' closed,
      detach_instance-none (close_with (set_instance c i m) e) gone,
    )
