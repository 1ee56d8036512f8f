-- ===== src/Mq/Hub.antt =====
-- The live subscribers of internal/mq/store.go: `RegisterSubscriber`, `UnregisterSubscriber` and the
-- sends of `NotifySubscribers`. A channel is its number on a heap of buffered channels.
use agent_comm_platform.Base.{
  ℕ, ◌+◌, ◌-◌, Bool, false, ◌||◌, Option, none, some, List, [], ◌∷◌, ◌++◌, length, ltb, leb, eqb,
  if◌then◌else◌,
}
use agent_comm_platform.Base.Bytes.{Bytes, ◌==◌}

pub record Channel (Env : Type 0) : Type 0 where
  pub capacity : ℕ
  pub queue : List Env

pub record Hub (Env : Type 0) : Type 0 where
  pub subscribers : List (Bytes × List ℕ)
  pub subscriber_count : ℕ
  pub channel : ℕ → Channel Env

abbrev pub max_subscribers_per_urn : ℕ
max_subscribers_per_urn = 4

abbrev pub max_subscribers : ℕ
max_subscribers = 1024

-- `s.subscribers[urn]`: nil where the key is missing.
unfoldable pub channels_of : Bytes → List (Bytes × List ℕ) → List ℕ
channels_of urn [] = []
channels_of urn ((u, chs) ∷ rest) =
    let others = channels_of urn rest in if u == urn then chs else others

-- `s.subscribers[urn] = append(s.subscribers[urn], ch)`
unfoldable pub add_channel : Bytes → ℕ → List (Bytes × List ℕ) → List (Bytes × List ℕ)
add_channel urn ch [] = (urn, ch ∷ []) ∷ []
add_channel urn ch ((u, chs) ∷ rest) =
    let others = add_channel urn ch rest in
    if u == urn then (u, chs ++ ch ∷ []) ∷ rest else (u, chs) ∷ others

unfoldable pub has_channel : ℕ → List ℕ → Bool
has_channel ch [] = false
has_channel ch (c ∷ cs) = eqb c ch || has_channel ch cs

-- The loop with its `break`: the first occurrence goes.
unfoldable pub remove_channel : ℕ → List ℕ → List ℕ
remove_channel ch [] = []
remove_channel ch (c ∷ cs) = let rest = remove_channel ch cs in if eqb c ch then cs else c ∷ rest

-- The entry of a URN with its channel removed, or no entry where none is left.
entry_without : Bytes → List ℕ → List (Bytes × List ℕ) → List (Bytes × List ℕ)
entry_without u [] rest = rest
entry_without u (c ∷ cs) rest = (u, c ∷ cs) ∷ rest

unfoldable pub drop_channel : Bytes → ℕ → List (Bytes × List ℕ) → List (Bytes × List ℕ)
unfolding entry_without
drop_channel urn ch [] = []
drop_channel urn ch ((u, chs) ∷ rest) =
    let others = drop_channel urn ch rest in
    if u == urn then entry_without u (remove_channel ch chs) rest else (u, chs) ∷ others

module _ {Env : Type 0} where
  -- `none` is ErrSubscriberLimit; the caller has authorised the recipient.
  unfoldable pub subscribe : Bytes → ℕ → Hub Env → Option (Hub Env)
  subscribe urn ch h =
      if leb max_subscribers_per_urn (length (channels_of urn h.subscribers))
        || leb max_subscribers h.subscriber_count
      then none
      else some (record h {
        subscribers = add_channel urn ch h.subscribers;
        subscriber_count = h.subscriber_count + 1;
      })

  unfoldable pub unsubscribe : Bytes → ℕ → Hub Env → Hub Env
  unsubscribe urn ch h = record h {
    subscribers = drop_channel urn ch h.subscribers;
    subscriber_count =
        (if has_channel ch (channels_of urn h.subscribers)
          then h.subscriber_count - 1
          else h.subscriber_count);
  }

  -- `select { case ch <- env: default: }`
  unfoldable pub try_send : ℕ → Env → (ℕ → Channel Env) → ℕ → Channel Env
  try_send ch env heap c =
      if eqb c ch
      then (if ltb (length (heap c).queue) (heap c).capacity
          then record { capacity = (heap c).capacity; queue = (heap c).queue ++ env ∷ [] }
          else heap c)
      else heap c

  unfoldable pub send_all : List ℕ → Env → (ℕ → Channel Env) → ℕ → Channel Env
  send_all [] env heap = heap
  send_all (ch ∷ chs) env heap = send_all chs env (try_send ch env heap)
