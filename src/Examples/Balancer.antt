-- ===== src/Examples/Balancer.antt =====
-- examples/balancer/main.cpp: requests to a store that is spread over several actors, and forwarded to
-- them in turn. Keys and values are numbers, and 0 is the empty string. A child answers each request,
-- as `await_child` waits for it.
pub mod Rounds
use actor_zeta.Base.{
  ℕ, zero, suc, ◌+◌, ◌%◌, ◌^◌, ◌<◌, ◌≤◌, ◌≡◌, ◌≢◌, refl, sym, ap, ◌∙◌, ◌⊎◌, inl, inr, Bool-cases,
  Bool, true, false, List, [], ◌∷◌, length, Option, none, some, arith, ◌==◌, if◌then◌else◌,
  get_elem?, modify, length-modify, get_elem?-modify_other, get_elem?-modify_same, get_elem?-lt,
}

abbrev pub Key : Type 0
Key = ℕ

abbrev pub Value : Type 0
Value = ℕ

-- `collection_part_t`, with its `data_`.
pub record CollectionPart : Type 0 where
  pub entries : Key → Option Value

abbrev put : CollectionPart → Key → Option Value → CollectionPart
put part key v = record { entries = λ k. if k == key then v else part.entries k }

-- `emplace` keeps what is there.
unfoldable pub insert : CollectionPart → Key → Value → CollectionPart
insert part key v = elim (part.entries key) [ none ↦ put part key (some v) | some there ↦ part ]

unfoldable pub remove : CollectionPart → Key → CollectionPart
remove part key = put part key none

unfoldable pub update : CollectionPart → Key → Value → CollectionPart
update part key v = put part key (some v)

unfoldable pub find : CollectionPart → Key → Value
find part key = elim (part.entries key) [ none ↦ 0 | some v ↦ v ]

pub data Request : Type 0 where
  to_insert to_update : Key → Value → Request
  to_remove to_find : Key → Request

pub data Reply : Type 0 where
  done : Reply
  found : Value → Reply

-- The behavior of a part.
unfoldable pub serve : CollectionPart → Request → CollectionPart
unfolding insert update remove
serve part (to_insert key v) = insert part key v
serve part (to_update key v) = update part key v
serve part (to_remove key) = remove part key
serve part (to_find key) = part

unfoldable pub answer : CollectionPart → Request → Reply
unfolding find
answer part (to_find key) = found (find part key)
answer part _ = done

-- The global counters.
pub record Counts : Type 0 where
  pub balancer : ℕ
  pub inserts : ℕ
  pub removes : ℕ
  pub updates : ℕ
  pub finds : ℕ

unfoldable pub count : Counts → Request → Counts
count c (to_insert key v) = record c { balancer = suc c.balancer; inserts = suc c.inserts }
count c (to_update key v) = record c { balancer = suc c.balancer; updates = suc c.updates }
count c (to_remove key) = record c { balancer = suc c.balancer; removes = suc c.removes }
count c (to_find key) = record c { balancer = suc c.balancer; finds = suc c.finds }

-- `collection_t`, its data members, and the counters.
pub record Collection : Type 0 where
  pub actors : List CollectionPart
  pub cursor : ℕ
  pub counts : Counts

abbrev index : Collection → ℕ
index c = c.cursor % length c.actors

-- The behavior of the collection. Only an empty list has no child at the index: then nothing changes,
-- and the message dies with its promise unfulfilled.
unfoldable pub forward : Collection → Request → Collection
unfolding serve count
forward c request = elim (get_elem? c.actors (index c)) [
  | none ↦ c
  | some child ↦ record {
    actors = modify (λ part. serve part request) c.actors (index c);
    cursor = suc c.cursor % 2 ^ 32;
    counts = count c.counts request;
  }
]

unfoldable pub reply : Collection → Request → Option Reply
unfolding answer
reply c request = elim (get_elem? c.actors (index c)) [
  | none ↦ none
  | some child ↦ some (answer child request)
]

unfoldable pub forward_all : Collection → List Request → Collection
unfolding forward
forward_all c [] = c
forward_all c (r ∷ rs) = forward_all (forward c r) rs
