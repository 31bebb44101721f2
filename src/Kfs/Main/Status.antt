-- ===== src/Kfs/Main/Status.antt =====
-- The exit status of kfstrace.
use cephtrace.Base.{
  ℕ, ◌≡◌, ◌∙◌, arith, true, false, ◌&&◌, ◌||◌, List, [], ◌∷◌, ◌++◌, some, ◌==◌, if◌then◌else◌, All,
}
use cephtrace.Select.Args.{is_negative}
use cephtrace.Kfs.Main.{KfsTracing, Round, poll_buffer, exit_status, is_over, poll_loop}

module _ (t : KfsTracing) where
  -- No signal has come, and no poll of a buffer that there is has failed.
  pub record Polled (r : Round) : Type 0 where
    pub running : r.exiting ≡ false
    pub osd : (t.rb && is_negative r.osd_poll) ≡ false
    pub mds : (t.mds_rb && is_negative r.mds_poll) ≡ false

  abbrev pub Quiet : Round → Type 0
  Quiet r = Polled r × (is_over t.settings r ≡ false)

  -- What the last poll of the round returns.
  abbrev pub last_poll : Round → ℕ
  last_poll r = if t.mds_rb then r.mds_poll else r.osd_poll

  goes_round :
      (r : Round) (rs : List Round) (err : ℕ)
      → Quiet r
      → poll_loop t (r ∷ rs) err
        ≡ poll_loop t rs (poll_buffer t.mds_rb r.mds_poll (poll_buffer t.rb r.osd_poll err).1).1
  unfolding poll_loop
  goes_round r rs err (p, over) =
      let running = p.running in let osd = p.osd in let mds = p.mds in ground arith

  ends_round :
      (r : Round) (rs : List Round) (err : ℕ)
      → (t.rb || t.mds_rb) ≡ true
      → Polled r
      → is_over t.settings r ≡ true
      → poll_loop t (r ∷ rs) err ≡ some (exit_status (last_poll r))
  unfolding poll_loop
  ends_round r rs err buffer p over =
      let running = p.running in let osd = p.osd in let mds = p.mds in ground arith

  -- When the timeout ends the polling, the exit status is 0 if the last poll returned 0, and 1 if it
  -- returned anything else, so also if it handled events.
  pub poll_loop-timeout :
      (before : List Round) (r : Round) (after : List Round) (err : ℕ)
      → (t.rb || t.mds_rb) ≡ true
      → All Quiet before
      → Polled r
      → is_over t.settings r ≡ true
      → poll_loop t (before ++ r ∷ after) err ≡ some (if last_poll r == 0 then 0 else 1)
  poll_loop-timeout [] r after err buffer quiet p over = ends_round r after err buffer p over
  poll_loop-timeout (q ∷ before) r after err buffer (quiet, more) p over =
      goes_round q (before ++ r ∷ after) err quiet
      ∙ poll_loop-timeout before r after _ buffer more p over
