-- ===== src/Orchestrator/Replies.antt =====
-- What the goroutine of a message does with the outcome of its run.
use sherlock.Orchestrator.Effects.{Outcome, returned, failed_with, panicked}

pub data Reply : Type 0 where
  ack nak : Reply

-- What the goroutine does with the outcome of its run.
unfoldable pub reply_of : Outcome (Unit {0}) → Reply
reply_of (returned u) = ack
reply_of (failed_with e) = nak
reply_of panicked = nak
