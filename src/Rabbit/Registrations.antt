-- ===== src/Rabbit/Registrations.antt =====
-- stratae/integrations/rabbitmq.py: one registration of a consumer while its connection comes and
-- goes: `_register`, `_start`, `remove`, `_resume` and what `_Link` does around it. A move is what
-- runs between two awaits. A refused declaration closes the channel, so it is a loss of it.
use stratae.Prelude.{
  ℕ, suc, Bool, true, false, Option, none, some, List, [], ◌∷◌, ◌==◌, ◌||◌, if◌then◌else◌,
}

-- Not registered yet, in `_registrations`, or popped from it.
pub data Status : Type 0 where
  unborn kept removed : Status

-- Where a start is: at `_declare`, or at `basic_consume`.
pub data Start : Type 0 where
  declaring consuming : Start

-- `tag` is `consumer_tag`, `channel` whether the link has one, `opening` whether `_open` is at its
-- `on_open`. Starts and cancels are in flight, and the broker has the live consumers, whose next
-- tag is `next`.
pub record World : Type 0 where
  pub status : Status
  pub tag : Option ℕ
  pub channel : Bool
  pub opening : Bool
  pub starts : List Start
  pub cancels : List ℕ
  pub live : List ℕ
  pub next : ℕ

-- `connect` is where `_resume` looks at the registrations, and `connected` the link's having its
-- channel. `cancelled t` is the broker's answer to a cancel of `t`; `fails` is an error in
-- `on_open`, after which `__aenter__` forgets the consumers and `_recover` does not.
pub data Move : Type 0 where
  register remove advance connect connected lost : Move
  fails : Bool → Move
  cancelled : ℕ → Move

abbrev pub new_world : World
new_world = record {
  status = unborn;
  tag = none;
  channel = false;
  opening = false;
  starts = [];
  cancels = [];
  live = [];
  next = 0;
}

abbrev without : ℕ → List ℕ → List ℕ
without t [] = []
without t (x ∷ xs) = if t == x then without t xs else x ∷ without t xs

abbrev among : ℕ → List ℕ → Bool
among t [] = false
among t (x ∷ xs) = if t == x then true else among t xs

-- `create_task(self._start(channel, registration))` if there is a channel.
abbrev begun : Bool → List Start → List Start
begun false starts = starts
begun true starts = declaring ∷ starts

abbrev on_register : Status → World → World
on_register unborn w = record w { status = kept; starts = begun w.channel w.starts }
on_register kept w = w
on_register removed w = w

-- The tag is cancelled if there are both a tag and a channel.
abbrev cancelling : Option ℕ → Bool → List ℕ → List ℕ
cancelling (some t) true cancels = t ∷ cancels
cancelling _ _ cancels = cancels

abbrev on_remove : Status → World → World
on_remove unborn w = w
on_remove kept w = record w { status = removed; cancels = cancelling w.tag w.channel w.cancels }
on_remove removed w = w

-- The broker's answer to `basic_consume`: the tag is kept, unless the handler was removed.
abbrev on_consumed : Status → List Start → World → World
on_consumed kept starts w = record w {
  tag = some w.next;
  starts = starts;
  live = w.next ∷ w.live;
  next = suc w.next;
}
on_consumed _ starts w = record w {
  tag = none;
  starts = starts;
  cancels = w.next ∷ w.cancels;
  live = w.next ∷ w.live;
  next = suc w.next;
}

abbrev on_advance : List Start → World → World
on_advance [] w = w
on_advance (declaring ∷ starts) w = record w { starts = consuming ∷ starts }
on_advance (consuming ∷ starts) w = on_consumed w.status starts w

-- A cancel by `remove` clears the tag when it is done; one by `_start` did before.
abbrev pub cleared : ℕ → Option ℕ → Option ℕ
cleared t none = none
cleared t (some u) = if t == u then none else some u

abbrev on_cancelled : ℕ → Bool → World → World
on_cancelled t false w = w
on_cancelled t true w = record w {
  tag = cleared t w.tag;
  cancels = without t w.cancels;
  live = without t w.live;
}

-- `_resume` over the registrations there are.
abbrev resumed : Status → List Start → List Start
resumed kept starts = declaring ∷ starts
resumed _ starts = starts

abbrev on_connect : Bool → World → World
on_connect true w = w
on_connect false w = record w { opening = true; starts = resumed w.status w.starts }

-- The channel is the link's once `on_open` has returned, after the start that it awaits.
abbrev on_connected : Bool → List Start → World → World
on_connected true [] w = record w { channel = true; opening = false }
on_connected _ _ w = w

-- `_forget_consumers` clears the tags of what is registered.
abbrev forgotten : Bool → Status → Option ℕ → Option ℕ
forgotten true kept tag = none
forgotten _ _ tag = tag

-- The connection is closed, and what was in flight on it is gone.
abbrev on_fails : Bool → Bool → World → World
on_fails forget false w = w
on_fails forget true w = record w {
  tag = forgotten forget w.status w.tag;
  opening = false;
  starts = [];
  cancels = [];
  live = [];
}

-- `_on_closed` with `_forget_consumers`.
abbrev on_lost : Bool → World → World
on_lost false w = w
on_lost true w = record w {
  tag = forgotten true w.status w.tag;
  channel = false;
  starts = [];
  cancels = [];
  live = [];
}

unfoldable pub move : Move → World → World
move register w = on_register w.status w
move remove w = on_remove w.status w
move advance w = on_advance w.starts w
move (cancelled t) w = on_cancelled t (among t w.cancels) w
move connect w = on_connect (w.channel || w.opening) w
move connected w = on_connected w.opening w.starts w
move (fails forget) w = on_fails forget w.opening w
move lost w = on_lost w.channel w

unfoldable pub run : List Move → World → World
run [] w = w
run (m ∷ ms) w = run ms (move m w)
