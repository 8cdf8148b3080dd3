-- ===== src/Swim/Local.antt =====
-- The methods of src/gossip/swim.cpp that the node calls for itself: the join handshake, retirement,
-- suspicion and its expiry, refutation, and the events that ride on outgoing messages.
use mini_dynamo.Base.{
  ℕ, ◌-◌, max, Bool, true, false, ◌&&◌, Option, none, some, List, [], ◌∷◌, ◌++◌, leb, if◌then◌else◌,
}
use mini_dynamo.Text.{Str, str_key, str_eq}
use mini_dynamo.OrdMap.{Map, find}
use mini_dynamo.Event.{EventType, MemberEvent}
use mini_dynamo.Swim.{
  Swim, MemberState, MemberEntry, PendingEvent, fire, put, entry_of, readdress, enqueue_event,
  is_left, is_dead, is_suspected, self_alive, next_incarnation,
}

abbrev pub is_alive_state : MemberState → Bool
is_alive_state MemberState.alive = true
is_alive_state MemberState.suspected = false
is_alive_state MemberState.dead = false
is_alive_state MemberState.left = false

-- An event about `id` with no address.
abbrev pub notice : EventType → Str → ℕ → MemberEvent
notice t id inc = record { type = t; node_id = id; host = []; port = 0; incarnation = inc }

abbrev pub effective : MemberEvent → MemberEntry → ℕ
effective ev e = max ev.incarnation (next_incarnation e.incarnation)

abbrev pub rejoined : MemberEvent → MemberEntry → MemberEntry
rejoined ev e = record e {
  info = readdress ev e.info;
  state = MemberState.alive;
  incarnation = effective ev e;
}

unfoldable pub join_known : Swim → MemberEvent → Option MemberEntry → Swim × Option ℕ
join_known s ev none = (
  fire (put s ev.node_id (entry_of ev MemberState.alive)) (entry_of ev MemberState.alive).info
      MemberState.alive,
  some ev.incarnation,
)
join_known s ev (some e) =
    if is_left e.state
    then (s, none)
    else if is_alive_state e.state
    then (put s ev.node_id (rejoined ev e), some (effective ev e))
    else (
      fire (put s ev.node_id (rejoined ev e)) (readdress ev e.info) MemberState.alive,
      some (effective ev e),
    )

-- `none`: the join is refused.
unfoldable pub apply_direct_join : Swim → MemberEvent → Swim × Option ℕ
unfolding join_known
apply_direct_join s ev =
    if str_eq ev.node_id s.self.node_id
    then (s, some s.incarnation)
    else join_known s ev (find ev.node_id s.members)

unfoldable pub leave_self : Swim → Swim
unfolding enqueue_event
leave_self s =
    if s.self_left
    then s
    else fire
        (enqueue_event (record s { self_left = true })
          (notice EventType.leave s.self.node_id s.incarnation))
        s.self MemberState.left

unfoldable pub leave_member : Swim → Str → Option MemberEntry → Swim
unfolding enqueue_event
leave_member s id none = s
leave_member s id (some e) =
    if is_left e.state
    then s
    else fire
        (enqueue_event (put s id (record e { state = MemberState.left }))
          (notice EventType.leave id e.incarnation))
        e.info MemberState.left

unfoldable pub leave : Swim → Str → Swim
unfolding leave_self leave_member
leave s id =
    if str_eq id s.self.node_id then leave_self s else leave_member s id (find id s.members)

unfoldable pub suspect_member : Swim → ℕ → Str → Option MemberEntry → Swim
unfolding enqueue_event
suspect_member s now id none = s
suspect_member s now id (some e) =
    if is_alive_state e.state
    then enqueue_event (put s id (record e { state = MemberState.suspected; suspect_since = now }))
        (notice EventType.suspect id e.incarnation)
    else s

unfoldable pub suspect : Swim → ℕ → Str → Swim
unfolding suspect_member
suspect s now id = suspect_member s now id (find id s.members)

-- What `confirmDead` and the expiry of a suspicion do to a member.
unfoldable pub declare_dead : Swim → Str → MemberEntry → Swim
unfolding enqueue_event
declare_dead s id e =
    fire
      (enqueue_event (put s id (record e { state = MemberState.dead }))
        (notice EventType.dead id e.incarnation))
      e.info MemberState.dead

unfoldable pub confirm_member : Swim → Str → Option MemberEntry → Swim
unfolding declare_dead
confirm_member s id none = s
confirm_member s id (some e) =
    if is_dead e.state then s else if is_left e.state then s else declare_dead s id e

unfoldable pub confirm_dead : Swim → Str → Swim
unfolding confirm_member
confirm_dead s id = confirm_member s id (find id s.members)

abbrev pub expires : ℕ → ℕ → MemberEntry → Bool
expires now timeout e = is_suspected e.state && leb timeout (now - e.suspect_since)

-- The loop over the members. It changes no key, so it runs over the members as they were.
unfoldable pub expire_loop : ℕ → ℕ → Map Str MemberEntry → Swim → List Str → Swim × List Str
unfolding declare_dead
expire_loop now timeout [] s expired = (s, expired)
expire_loop now timeout ((id, e) ∷ m) s expired =
    expire_loop now timeout m (if expires now timeout e then declare_dead s id e else s)
      (if expires now timeout e then expired ++ id ∷ [] else expired)

unfoldable pub expire_suspects : Swim → ℕ → ℕ → Swim × List Str
unfolding expire_loop
expire_suspects s now timeout = expire_loop now timeout s.members s []

unfoldable pub refute : Swim → Swim
unfolding enqueue_event
refute s =
    enqueue_event (record s { incarnation = next_incarnation s.incarnation })
      (self_alive s (next_incarnation s.incarnation))

-- The loop of `getEventsToSend`: each event goes out once more, and leaves when its budget is spent.
unfoldable pub send_all : List PendingEvent → List MemberEvent × List PendingEvent
send_all [] = ([], [])
send_all (p ∷ ps) =
    let (out, kept) = send_all ps in
    (
      p.event ∷ out,
      if leb (p.remaining - 1) 0 then kept else record p { remaining = p.remaining - 1 } ∷ kept,
    )

unfoldable pub get_events_to_send : Swim → Swim × List MemberEvent
unfolding send_all
get_events_to_send s = let (out, kept) = send_all s.pending in (record s { pending = kept }, out)
