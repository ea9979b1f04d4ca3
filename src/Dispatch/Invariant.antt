-- ===== src/Dispatch/Invariant.antt =====
-- The parts of a scan's state in step with each other (engine.go).
use sentio_portfolio.Common.{
  ℕ, ◌≤◌, ◌≡◌, refl, subst, Bool, true, false, not, ◌&&◌, ◌||◌, List, [], ◌∷◌, some, ◌==◌, length,
  get_elem?, arith,
}
use Prim.Native.String.{String}
use sentio_portfolio.Scan.{Deployment, Chains, Reader}
use sentio_portfolio.Dispatch.{State, Event, Phase, looping, selecting, closed, start, is_over}
use sentio_portfolio.Dispatch.Counting.{length-remove_at}
use sentio_portfolio.Dispatch.Stepping.{
  Stepped, stopping, ending, going_on, sending, giving_up, leaving_wallet, reading_wallet,
  finishing, finishing_wallet,
}

pub record IsOrdered (workers : ℕ) (s : State) : Type 0 where
  -- The wallet's deployments wait for discovery, and are read or left after it.
  pub waiting : s.discovering ≡ true → (s.wallet_running ≡ []) × (s.wallet_unread ≡ [])
  pub left : s.discovering ≡ false → s.wallet ≡ []
  -- Nothing is left out of a scan that was not stopped.
  pub wallet_read : s.stopped ≡ false → s.wallet_unread ≡ []
  pub all_sent : s.phase ≡ closed → s.stopped ≡ false → s.pending ≡ []
  -- A select has a job to send.
  pub to_send : s.phase ≡ selecting → (length s.pending == 0) ≡ false
  pub few : length s.running ≤ workers

empty_of : {A : Type 0} (xs : List A) → (length xs == 0) ≡ true → xs ≡ []
empty_of [] h = refl
empty_of (x ∷ xs) h = ground arith

or_left : (a b : Bool) → (a || b) ≡ true → b ≡ false → a ≡ true
or_left true b h k = refl
or_left false b h k = cc

not_or : (a b : Bool) → (a || b) ≡ false → a ≡ false
not_or true b h = h
not_or false b h = refl

none_there : (i : ℕ) (d : Deployment) → get_elem? {A = Deployment} [] i ≡ some d → ⊥
none_there i d h = cc

module _ {P : Type 0} (reader : Reader P) (root : ℕ) (scans : Chains P) (workers : ℕ) where
  pub step_IsOrdered :
      (e : Event) (s t : State)
      → IsOrdered workers s
      → Stepped reader root scans workers e s t
      → IsOrdered workers t
  step_IsOrdered e s t o (stopping s') = record {
    waiting = o.waiting;
    left = o.left;
    wallet_read = λ h. cc;
    all_sent = λ h k. cc;
    to_send = o.to_send;
    few = o.few;
  }
  step_IsOrdered e s t o (ending s' looped over) = record {
    waiting = o.waiting;
    left = o.left;
    wallet_read = o.wallet_read;
    all_sent = λ _ going. empty_of s'.pending (or_left _ _ over going);
    to_send = λ h. cc;
    few = o.few;
  }
  step_IsOrdered e s t o (going_on s' looped more) = record {
    waiting = o.waiting;
    left = o.left;
    wallet_read = o.wallet_read;
    all_sent = λ h k. cc;
    to_send = λ h. not_or _ _ more;
    few = o.few;
  }
  step_IsOrdered e s t o (sending s' d ds chosen there free) = record {
    waiting = o.waiting;
    left = o.left;
    wallet_read = o.wallet_read;
    all_sent = λ h k. cc;
    to_send = λ h. cc;
    few = free;
  }
  step_IsOrdered e s t o (giving_up s' chosen stopped) = record {
    waiting = o.waiting;
    left = o.left;
    wallet_read = o.wallet_read;
    all_sent = λ h k. cc;
    to_send = λ h. cc;
    few = o.few;
  }
  step_IsOrdered e s t o (leaving_wallet s' found stopped) = record {
    waiting = λ h. cc;
    left = λ h. refl;
    wallet_read = λ h. cc;
    all_sent = o.all_sent;
    to_send = o.to_send;
    few = o.few;
  }
  step_IsOrdered e s t o (reading_wallet s' found going) = record {
    waiting = λ h. cc;
    left = λ h. refl;
    wallet_read = o.wallet_read;
    all_sent = o.all_sent;
    to_send = o.to_send;
    few = o.few;
  }
  step_IsOrdered e s t o (finishing s' i d found) = record {
    waiting = o.waiting;
    left = o.left;
    wallet_read = o.wallet_read;
    all_sent = o.all_sent;
    to_send = o.to_send;
    few = omega (arith, o.few, length-remove_at i s'.running d found);
  }
  step_IsOrdered e s t o (finishing_wallet s' i d found) = record {
    waiting =
        λ h. absurd (none_there i d (subst (λ ws. get_elem? ws i ≡ some d) (o.waiting h).0 found));
    left = o.left;
    wallet_read = o.wallet_read;
    all_sent = o.all_sent;
    to_send = o.to_send;
    few = o.few;
  }

pub start_IsOrdered :
    (workers : ℕ) (jobs wallet : List Deployment) (counts : List (String × ℕ))
    (probed : List String)
    → IsOrdered workers (start jobs wallet counts probed)
unfolding start
start_IsOrdered workers jobs wallet counts probed = record {
  waiting = λ h. (refl, refl);
  left = λ h. empty_of wallet (not_false h);
  wallet_read = λ h. refl;
  all_sent = λ h k. cc;
  to_send = λ h. cc;
  few = omega arith;
}
  where
    not_false : {b : Bool} → not b ≡ false → b ≡ true
    not_false {b = true} e = refl
    not_false {b = false} e = cc

and_left : (a b : Bool) → (a && b) ≡ true → a ≡ true
and_left true b h = refl
and_left false b h = cc

and_right : (a b : Bool) → (a && b) ≡ true → b ≡ true
and_right true b h = h
and_right false b h = cc

-- A scan whose waits are over has nothing under way.
pub over_left :
    (s : State)
    → is_over s ≡ true
    → (s.phase ≡ closed) × ((s.running ≡ []) × ((s.discovering ≡ false) × (s.wallet_running ≡ [])))
over_left s h = go s.phase refl h
  where
    go :
        (p : Phase)
        → s.phase ≡ p
        → (elim p [
          | looping ↦ false
          | selecting ↦ false
          | closed ↦ (length s.running == 0) && not s.discovering && (length s.wallet_running == 0)
        ])
          ≡ true
        → (s.phase ≡ closed)
          × ((s.running ≡ []) × ((s.discovering ≡ false) × (s.wallet_running ≡ [])))
    go looping e k = absurd cc
    go selecting e k = absurd cc
    go closed e k =
        let first = and_left _ _ k in
        (
          e,
          (
            empty_of s.running (and_left _ _ first),
            (not_true (and_right _ _ first), empty_of s.wallet_running (and_right _ _ k)),
          ),
        )
      where
        not_true : {b : Bool} → not b ≡ true → b ≡ false
        not_true {b = true} e = cc
        not_true {b = false} e = refl
