-- ===== src/Logger/Async/Steps/Order.antt =====
-- What the logger's threads write is what was appended, in order.
use cxx_epoll_http_server.Common.{
  ◌<◌, ◌≡◌, ◌≢◌, refl, sym, ap, ◌∙◌, false, [], ◌++◌, append-nil, Bytes, arith,
}
use cxx_epoll_http_server.Logger.Async.{Files, is_closed, insert, swap, write_swapped, close_log}
use cxx_epoll_http_server.Logger.Async.Writing.{write_all_lem}
use cxx_epoll_http_server.Logger.Async.Steps.{
  Phase, idle, top, writing, leaving, exited, joined, stopped, World, begin_log, late_bytes,
  insert_line, request_stop, join_thread, Step, begin, look, add, take_buffer, write, leave, exit,
  request, join, finish, Reach, new, next,
}
use cxx_epoll_http_server.Logger.Async.Drains.{
  insert-Ordered, write_swapped-Ordered, drain-Drained, last_drain-Drained, start-Opened, Ordered,
}

record IsValid (w : World) : Type 0 where
  pub order : Ordered w.log
  pub tidy : w.phase ≢ writing → w.log.to_write ≡ []
  pub opened : w.phase ≢ idle → w.phase ≢ stopped → is_closed w.log.sink ≡ false
  pub unused :
      w.phase ≡ idle
      → (w.log.running ≡ false) × (w.in_flight ≡ 0) × (w.log.accepted ≡ w.log.written)
  pub left : w.phase ≡ stopped → w.log.current ≡ w.late
  pub none_late : w.phase ≢ stopped → w.late ≡ []

insert_line-IsValid :
    (d : Bytes) (w : World) → 0 < w.in_flight → IsValid w → IsValid (insert_line d w)
unfolding insert_line insert late_bytes
insert_line-IsValid d w p v = record {
  order = insert-Ordered w.log.accepted w.log.written w.log.to_write w.log.current d v.order;
  tidy = v.tidy;
  opened = v.opened;
  unused = λ e. absurd (omega (arith, (v.unused e).1));
  left = λ e. ap (λ q. q ++ d) (v.left e) ∙ ap (λ p. w.late ++ late_bytes p d) (sym e);
  none_late = λ n. ap (λ q. q ++ late_bytes w.phase d) (v.none_late n) ∙ early w.phase n;
}
  where
    early : (p : Phase) → p ≢ stopped → late_bytes p d ≡ []
    early idle n = refl
    early top n = refl
    early writing n = refl
    early leaving n = refl
    early exited n = refl
    early joined n = refl
    early stopped n = absurd (n refl)

Step-IsValid : {w w' : World} → Step w w' → IsValid w → IsValid w'
unfolding begin_log swap request_stop join_thread write_swapped close_log
Step-IsValid {w} (begin opens path flush_ms roll_bytes e) v =
    let u = v.unused e in
    let o = start-Opened opens path flush_ms roll_bytes w.log u.0 u.2 in
    record {
      order = o.0;
      tidy = λ _. o.1;
      opened = λ _ _. o.2;
      unused = λ q. cc;
      left = λ q. cc;
      none_late = λ _. v.none_late (λ q. cc);
    }
Step-IsValid {w} (look r) v = record {
  order = v.order;
  tidy = v.tidy;
  opened = v.opened;
  unused = λ e. absurd (ground (arith, r, (v.unused e).0));
  left = v.left;
  none_late = v.none_late;
}
Step-IsValid {w} (add d p n) v = insert_line-IsValid d w p v
Step-IsValid {w} (take_buffer e n) v = record {
  order =
      v.order
      ∙ ap (λ q. w.log.written ++ (q ++ w.log.current)) (v.tidy (λ q. cc))
      ∙ ap (λ q. w.log.written ++ q) (sym (append-nil w.log.current))
      ∙ ap (λ q. w.log.written ++ (w.log.current ++ q)) (sym (v.tidy (λ q. cc)));
  tidy = λ q. absurd (q refl);
  opened = λ _ _. v.opened (λ q. cc) (λ q. cc);
  unused = λ q. cc;
  left = λ q. cc;
  none_late = λ _. v.none_late (λ q. cc);
}
Step-IsValid {w} (write k e t) v =
    let o = v.opened (λ q. cc) (λ q. cc) in
    record {
      order = write_swapped-Ordered k w.log o t v.order;
      tidy = λ _. refl;
      opened = λ _ _. (write_all_lem k w.log.to_write w.log o).0.5 ∙ o;
      unused = λ q. cc;
      left = λ q. cc;
      none_late = λ _. v.none_late (λ q. cc);
    }
Step-IsValid {w} (leave e n r) v = record {
  order = v.order;
  tidy = λ _. v.tidy (λ q. cc);
  opened = λ _ _. v.opened (λ q. cc) (λ q. cc);
  unused = λ q. cc;
  left = λ q. cc;
  none_late = λ _. v.none_late (λ q. cc);
}
Step-IsValid {w} (exit k e t) v =
    let d = drain-Drained k w.log (v.opened (λ q. cc) (λ q. cc)) (v.tidy (λ q. cc)) t v.order in
    record {
      order = d.0;
      tidy = λ _. d.2;
      opened = λ _ _. d.3;
      unused = λ q. cc;
      left = λ q. cc;
      none_late = λ _. v.none_late (λ q. cc);
    }
Step-IsValid {w} (request r) v = record {
  order = v.order;
  tidy = v.tidy;
  opened = v.opened;
  unused = v.unused;
  left = v.left;
  none_late = v.none_late;
}
Step-IsValid {w} (join e) v = record {
  order = v.order;
  tidy = λ _. v.tidy (λ q. cc);
  opened = λ _ _. v.opened (λ q. cc) (λ q. cc);
  unused = λ q. cc;
  left = λ q. cc;
  none_late = λ _. v.none_late (λ q. cc);
}
Step-IsValid {w} (finish k k' e t) v =
    let d =
      last_drain-Drained k k' w.log (v.opened (λ q. cc) (λ q. cc)) (v.tidy (λ q. cc)) t v.order in
    record {
      order = d.0;
      tidy = λ _. d.2;
      opened = λ _ n. absurd (n refl);
      unused = λ q. cc;
      left = λ _. d.1 ∙ sym (v.none_late (λ q. cc));
      none_late = λ n. absurd (n refl);
    }

Reach-IsValid : {d : Files} {w : World} → Reach d w → IsValid w
Reach-IsValid new = record {
  order = refl;
  tidy = λ _. refl;
  opened = λ n _. absurd (n refl);
  unused = λ _. (refl, refl, refl);
  left = λ q. cc;
  none_late = λ _. refl;
}
Reach-IsValid (next r t) = Step-IsValid t (Reach-IsValid r)

-- In every state that the logger's threads reach, however they interleave, while `write` fails
-- with nothing but EINTR, the bytes that were appended are those written, those that the thread
-- took and those that wait, in this order: none is lost, written twice or overtaken.
pub log_in_order :
    (d : Files) (w : World)
    → Reach d w
    → w.log.accepted ≡ w.log.written ++ (w.log.to_write ++ w.log.current)
log_in_order d w r = (Reach-IsValid r).order

-- When `stop` has drained the log, all bytes that were appended are written, in order, but those
-- that callers insert behind that drain, who saw the logger running before it: they come last and
-- are not written. The same holds at every later state; `write` fails with nothing but EINTR.
pub stop_writes_all :
    (d : Files) (w : World)
    → Reach d w
    → w.phase ≡ stopped
    → w.log.accepted ≡ w.log.written ++ w.late
stop_writes_all d w r e =
    let v = Reach-IsValid r in
    v.order
    ∙ ap (λ q. w.log.written ++ (q ++ w.log.current)) (v.tidy (λ q. cc))
    ∙ ap (λ q. w.log.written ++ q) (v.left e)
