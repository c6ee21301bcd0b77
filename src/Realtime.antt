-- ===== src/Realtime.antt =====
-- The WebSocket hub of server/internal/realtime/hub.go: its state, the handlers of its loop, and
-- the channels into it. A client is an object on a heap, since the hub and the transport share it
-- by pointer.
pub mod Consistency
pub mod Delivery
pub mod Eviction
pub mod Steps
pub mod Privacy
pub mod PendingEvents
mod Examples
pub mod Admission
use aul_private_location.Base.{
  ℕ, suc, Bool, true, false, ◌||◌, Option, none, some, List, [], ◌∷◌, ◌++◌, ltb, ◌==◌,
  if◌then◌else◌, length, get_or, update, has, add, del, Map, get, put, remove, size, empty, ℤ, pos,
  negsuc,
}

pub data EventType : Type 0 where
  ping sos sos_resolved place_updated key_envelope precision_mode member_changed : EventType

pub record Event : Type 0 where
  pub type : EventType
  pub circle_id : ℕ
  pub payload : List ℕ

-- What is written to a socket: an encoded event, or the control frame of an eviction.
pub data Frame : Type 0 where
  encoded : List ℕ → Frame
  unsubscribed : ℕ → Frame

-- `circles` is the client's own subscription set, `queue` the contents of the channel `send`, and
-- `buffer` the channel's capacity.
pub record Client : Type 0 where
  pub user_id : ℕ
  pub circles : List ℕ
  pub queue : List Frame
  pub buffer : ℕ
  pub closed : Bool

pub record EvictReq : Type 0 where
  pub circle_id : ℕ
  pub user_id : ℕ
  pub all_users : Bool

pub record Stats : Type 0 where
  pub clients : ℕ
  pub circles : ℕ

-- `heap` holds the client objects by address; `broadcast` and `evict` are the buffered channels.
pub record Hub : Type 0 where
  pub heap : ℕ → Client
  pub clients : List ℕ
  pub circles : Map (List ℕ)
  pub broadcast : List Event
  pub evict : List EvictReq

abbrev pub broadcast_buffer : ℕ
broadcast_buffer = 256

abbrev pub evict_buffer : ℕ
evict_buffer = 64

abbrev pub default_send_buffer : ℕ
default_send_buffer = 64

-- The loop over the given circles that fills a new client's set.
circle_set : List ℕ → List ℕ
circle_set [] = []
circle_set (k ∷ ks) = add k (circle_set ks)

-- `buffer <= 0` falls back to the default.
send_buffer : ℤ → ℕ
send_buffer (pos (suc n)) = suc n
send_buffer (pos _) = default_send_buffer
send_buffer (negsuc n) = default_send_buffer

pub new_client : ℕ → List ℕ → ℤ → Client
unfolding circle_set send_buffer
new_client user circles buffer = record {
  user_id = user;
  circles = circle_set circles;
  queue = [];
  buffer = send_buffer buffer;
  closed = false;
}

pub new_hub : (ℕ → Client) → Hub
new_hub heap = record { heap = heap; clients = []; circles = empty; broadcast = []; evict = [] }

-- `m[k]`, with nil read as the empty set.
abbrev pub set_of : Map (List ℕ) → ℕ → List ℕ
set_of m k = get_or (get m k) []

abbrev pub subscribers : Hub → ℕ → List ℕ
subscribers h = set_of h.circles

-- `h.circles[k][c] = struct{}{}`, with the set made first where it is nil.
pub subscribe : Map (List ℕ) → ℕ → ℕ → Map (List ℕ)
subscribe m c k = put m k (add c (set_of m k))

pub subscribe_all : Map (List ℕ) → ℕ → List ℕ → Map (List ℕ)
subscribe_all m c [] = m
subscribe_all m c (k ∷ ks) = subscribe_all (subscribe m c k) c ks

pub add_client : Hub → ℕ → Hub
add_client h c = record h {
  clients = add c h.clients;
  circles = subscribe_all h.circles c (h.heap c).circles;
}

-- `if len(set) == 0 { delete(h.circles, k) }`, after the set was changed.
pub store_set : Map (List ℕ) → ℕ → List ℕ → Map (List ℕ)
store_set m k [] = remove m k
store_set m k (c ∷ set) = put m k (c ∷ set)

pub unsubscribe : Map (List ℕ) → ℕ → ℕ → Map (List ℕ)
unfolding store_set
unsubscribe m c k = elim (get m k) [ none ↦ m | some set ↦ store_set m k (del c set) ]

pub unsubscribe_all : Map (List ℕ) → ℕ → List ℕ → Map (List ℕ)
unsubscribe_all m c [] = m
unsubscribe_all m c (k ∷ ks) = unsubscribe_all (unsubscribe m c k) c ks

-- `none` is a panic: the channel is closed already.
pub close_send : Hub → ℕ → Option Hub
close_send h c =
    if (h.heap c).closed
    then none
    else some (record h { heap = update h.heap c (record (h.heap c) { closed = true }) })

pub remove_client : Hub → ℕ → Option Hub
unfolding close_send
remove_client h c =
    if has c h.clients
    then close_send
        (record h {
          clients = del c h.clients;
          circles = unsubscribe_all h.circles c (h.heap c).circles;
        })
        c
    else some h

abbrev pub push_frame : Hub → ℕ → Frame → Hub
push_frame h c f = record h {
  heap = update h.heap c (record (h.heap c) { queue = (h.heap c).queue ++ f ∷ [] });
}

-- The `select` of `dispatch`: send if the buffer has room, else drop the client. A send on a closed
-- channel panics.
pub deliver : Hub → ℕ → Frame → Option Hub
deliver h c f =
    if (h.heap c).closed
    then none
    else if ltb (length (h.heap c).queue) (h.heap c).buffer
    then some (push_frame h c f)
    else remove_client h c

pub deliver_all : Hub → List ℕ → Frame → Option Hub
deliver_all h [] f = some h
deliver_all h (c ∷ cs) f = elim (deliver h c f) [ none ↦ none | some h' ↦ deliver_all h' cs f ]

-- `marshal` is encoding/json on the event: it fails on a payload that is no JSON.
pub dispatch : (Event → Option (List ℕ)) → Hub → Event → Option Hub
dispatch marshal h ev = elim (marshal ev) [
  | none ↦ some h
  | some bytes ↦ deliver_all h (subscribers h ev.circle_id) (encoded bytes)
]

-- `!req.allUsers && c.UserID != req.userID` negated: the client is evicted.
abbrev pub evicts : EvictReq → Client → Bool
evicts req c = req.all_users || c.user_id == req.user_id

-- The body of the loop in `doEvict` for a client that is evicted: both deletes, then a send that is
-- skipped when the buffer is full.
pub evict_client : Hub → ℕ → ℕ → Option Hub
evict_client h k c =
    let o = record (h.heap c) { circles = del k (h.heap c).circles } in
    let h' = record h {
      heap = update h.heap c o;
      circles = put h.circles k (del c (subscribers h k));
    } in
    if o.closed
    then none
    else if ltb (length o.queue) o.buffer
    then some (push_frame h' c (unsubscribed k))
    else some h'

pub evict_all : Hub → EvictReq → List ℕ → Option Hub
evict_all h req [] = some h
evict_all h req (c ∷ cs) = elim (evicts req (h.heap c)) [
  | true ↦ elim (evict_client h req.circle_id c) [ none ↦ none | some h' ↦ evict_all h' req cs ]
  | false ↦ evict_all h req cs
]

-- `if len(set) == 0 { delete(h.circles, req.circleID) }`
pub drop_if_empty : Hub → ℕ → List ℕ → Hub
drop_if_empty h k [] = record h { circles = remove h.circles k }
drop_if_empty h k (c ∷ cs) = h

pub do_evict : Hub → EvictReq → Option Hub
do_evict h req = elim (subscribers h req.circle_id) [
  | [] ↦ some h
  | c ∷ cs ↦ elim (evict_all h req (c ∷ cs)) [
    | none ↦ none
    | some h' ↦ some (drop_if_empty h' req.circle_id (subscribers h' req.circle_id))
  ]
]

-- `EvictUser`, `EvictCircle` and `Publish` put into a buffered channel, and drop what finds it
-- full.
pub request_evict : Hub → EvictReq → Hub
request_evict h req =
    if ltb (length h.evict) evict_buffer then record h { evict = h.evict ++ req ∷ [] } else h

unfoldable pub evict_user : Hub → ℕ → ℕ → Hub
unfolding request_evict
evict_user h circle user =
    request_evict h (record { circle_id = circle; user_id = user; all_users = false })

unfoldable pub evict_circle : Hub → ℕ → Hub
unfolding request_evict
evict_circle h circle =
    request_evict h (record { circle_id = circle; user_id = 0; all_users = true })

unfoldable pub publish : Hub → Event → Hub
publish h ev =
    if ltb (length h.broadcast) broadcast_buffer
    then record h { broadcast = h.broadcast ++ ev ∷ [] }
    else h

pub stats : Hub → Stats
stats h = record { clients = length h.clients; circles = size h.circles }

-- The requests that the loop of `Run` takes from its channels; `done` is the cancelled context.
pub data Request : Type 0 where
  done : Request
  register unregister : ℕ → Request
  next_broadcast next_evict stats_req : Request

-- The loop at shutdown: every registered channel is closed.
pub close_all : Hub → List ℕ → Option Hub
unfolding close_send
close_all h [] = some h
close_all h (c ∷ cs) = elim (close_send h c) [ none ↦ none | some h' ↦ close_all h' cs ]

pub shut_down : Hub → Option Hub
shut_down h = elim (close_all h h.clients) [
  | none ↦ none
  | some h' ↦ some (record h' { clients = []; circles = empty })
]

pub take_broadcast : (Event → Option (List ℕ)) → Hub → List Event → Option Hub
take_broadcast marshal h [] = some h
take_broadcast marshal h (ev ∷ rest) = dispatch marshal (record h { broadcast = rest }) ev

pub take_evict : Hub → List EvictReq → Option Hub
take_evict h [] = some h
take_evict h (req ∷ rest) = do_evict (record h { evict = rest }) req

-- One round of the `select` in `Run`. A round whose channel is empty is not chosen, and is read
-- here as no change.
pub serve : (Event → Option (List ℕ)) → Hub → Request → Option Hub
unfolding shut_down take_broadcast take_evict
serve marshal h done = shut_down h
serve marshal h (register c) = some (add_client h c)
serve marshal h (unregister c) = remove_client h c
serve marshal h next_broadcast = take_broadcast marshal h h.broadcast
serve marshal h next_evict = take_evict h h.evict
serve marshal h stats_req = some h
