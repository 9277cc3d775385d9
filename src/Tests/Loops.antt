-- ===== src/Tests/Loops.antt =====
-- Tests of server/pkg/worker/worker.go: runs of a worker that is stopped.
use moblog_cloud.Prelude.{true, ◌≡◌, refl}
use moblog_cloud.Worker.Loop.{
  Consumer, Stopper, awaiting, Loop, new_loop, Step, calls_stop, calls_wait, Run, stay, go,
}
use moblog_cloud.Worker.Loop.Stopping.{wait-steals}

abbrev after_stop : Loop
after_stop = record new_loop {
  consumer = Consumer.working;
  stopper = Stopper.returned;
  ack_closed = true;
  closed = true;
  jobs = 1;
}

abbrev both_called : Loop
both_called = record new_loop { stopper = Stopper.sending; waiting = 1 }

calls_both : Run new_loop both_called
calls_both = go (go stay (calls_wait (λ e. cc))) (calls_stop (λ e. cc) refl)

wait-steals_example :
    (t : Loop) × Step both_called t
    × (t.waiting ≡ 0)
    × ((u : Loop) → Run t u → u.stopper ≡ awaiting)
wait-steals_example = wait-steals 0 calls_both refl refl
