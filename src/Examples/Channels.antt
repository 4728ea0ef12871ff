-- ===== src/Examples/Channels.antt =====
-- Interleavings of the main thread and a worker, and the theorems of `Server.Dispatch.Channel` at
-- them.
use multiport_network.Base.{◌≡◌, refl, true, false, [], ◌∷◌, ◌++◌, arith, length}
use multiport_network.Server.Dispatch.{
  queue_new_conn, read_pipe, pop_item, push_item, notify, new_conn,
}
use multiport_network.Server.Dispatch.Channel.{
  Channel, push, tell, tell_fails, hear, pop, Reach, here, next, sfds, handed_in_order,
  quiet_all_handed, unheard_left_behind,
}

-- Descriptor 5 is pushed and told, 6 is pushed, and the worker has read the byte.
abbrev second_pushed : Channel
second_pushed = record {
  worker = record {
    thread_index = 1;
    queue =
        record { sfd = 5; mode = queue_new_conn; thread = 1 }
        ∷ record { sfd = 6; mode = queue_new_conn; thread = 1 }
        ∷ [];
    pipe = [];
  };
  pushed = true;
  awake = true;
  accepted = 5 ∷ 6 ∷ [];
  handed = [];
  unheard = 0;
}

second_pushed-Reach : Reach 1 second_pushed
unfolding push_item notify read_pipe
second_pushed-Reach =
    next (next (next (next here (push 5 refl (omega arith))) (tell refl)) (hear refl refl))
      (push 6 refl (omega arith))

-- Descriptor 5 was handed on, and all is at rest.
abbrev one_handed : Channel
one_handed = record {
  worker = record { thread_index = 1; queue = []; pipe = [] };
  pushed = false;
  awake = false;
  accepted = 5 ∷ [];
  handed = 5 ∷ [];
  unheard = 0;
}

one_handed-Reach : Reach 1 one_handed
unfolding push_item notify read_pipe pop_item new_conn
one_handed-Reach =
    next (next (next (next here (push 5 refl (omega arith))) (tell refl)) (hear refl refl))
      (pop refl)

-- Descriptor 5 was pushed and the write to the pipe failed.
abbrev one_lost : Channel
one_lost = record {
  worker = record {
    thread_index = 1;
    queue = record { sfd = 5; mode = queue_new_conn; thread = 1 } ∷ [];
    pipe = [];
  };
  pushed = false;
  awake = false;
  accepted = 5 ∷ [];
  handed = [];
  unheard = 1;
}

one_lost-Reach : Reach 1 one_lost
unfolding push_item notify
one_lost-Reach = next (next here (push 5 refl (omega arith))) (tell_fails refl)

handed_in_order_example : 5 ∷ 6 ∷ [] ≡ [] ++ sfds second_pushed.worker.queue
handed_in_order_example = handed_in_order second_pushed-Reach

quiet_all_handed_example : one_handed.handed ≡ 5 ∷ []
quiet_all_handed_example = quiet_all_handed one_handed-Reach refl refl refl refl

unheard_left_behind_example : length one_lost.worker.queue ≡ 1
unheard_left_behind_example = unheard_left_behind one_lost-Reach refl refl refl
