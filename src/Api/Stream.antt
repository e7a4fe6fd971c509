-- ===== src/Api/Stream.antt =====
-- subscribe and release of internal/api/stream.go: who streams events, and whether the server
-- listens for them. A channel is its number; the map of streams is a list of its entries.
use job_scheduling.Base.{
  ℕ, ◌+◌, ◌-◌, ◌≤◌, ◌≡◌, refl, Bool, true, false, not, ◌&&◌, ◌||◌, List, [], ◌∷◌, leb, ◌==◌,
  if◌then◌else◌, length, select, length-select-le, arith, to_ℕ, Bool-cases, inl, inr, exists,
}
use job_scheduling.Api.Problem.{ApiReply, done, refused, too_many}

-- An entry of the map streams.
pub record Streams : Type 0 where
  pub user : ℕ
  pub open_streams : ℕ

pub record Hub : Type 0 where
  pub streams : List Streams
  pub wakers : List ℕ
  pub listening : Bool  -- stopListen != nil

abbrev pub streams_per_user : ℕ
streams_per_user = 4

-- `s.streams[uid]`.
unfoldable pub count_of : ℕ → List Streams → ℕ
count_of u [] = 0
count_of u (s ∷ ss) = if s.user == u then s.open_streams else count_of u ss

-- `s.streams[uid]++`.
unfoldable pub increment : ℕ → List Streams → List Streams
increment u [] = record { user = u; open_streams = 1 } ∷ []
increment u (s ∷ ss) =
    if s.user == u then record s { open_streams = s.open_streams + 1 } ∷ ss else s ∷ increment u ss

-- `s.streams[uid]--`, and the entry goes with its last stream. Only the function that subscribe hands
-- out calls it, so the user has an entry; where there is none, Go's map would have one of -1.
unfoldable pub decrement : ℕ → List Streams → List Streams
decrement u [] = []
decrement u (s ∷ ss) =
    if s.user == u
    then if s.open_streams - 1 == 0 then ss else record s { open_streams = s.open_streams - 1 } ∷ ss
    else s ∷ decrement u ss

-- subscribe, with `ch` the channel that it makes.
unfoldable pub subscribe : ℕ → ℕ → Hub → ApiReply ℕ × Hub
unfolding count_of increment
subscribe u ch hub =
    if leb streams_per_user (count_of u hub.streams)
    then (refused (too_many "too many event streams open" 30), hub)
    else (
      done ch,
      record {
        streams = increment u hub.streams;
        wakers = ch ∷ hub.wakers;
        listening = length (ch ∷ hub.wakers) == 1 || hub.listening;
      },
    )

-- `delete(s.wakers, ch)`.
abbrev pub without : ℕ → List ℕ → List ℕ
without ch = select (λ c. not (c == ch))

unfoldable pub release : ℕ → ℕ → Hub → Hub
unfolding decrement
release u ch hub =
    let wakers' = without ch hub.wakers in
    record {
      streams = decrement u hub.streams;
      wakers = wakers';
      listening = if length wakers' == 0 then false else hub.listening;
    }

-- A user has one entry, so that no count hides another.
unfoldable pub distinct : List Streams → Bool
distinct [] = true
distinct (s ∷ ss) = not (exists (λ t. t.user == s.user) ss) && distinct ss

-- A user has one entry, no user has more streams than allowed, and the server listens exactly while there is a stream.
abbrev pub IsTidy : Hub → Type 0
IsTidy hub =
    (distinct hub.streams ≡ true)
    × ((u : ℕ) → count_of u hub.streams ≤ 4)
    × (hub.listening ≡ not (length hub.wakers == 0))

count_of-increment :
    (u v : ℕ) (ss : List Streams) → count_of v (increment u ss) ≡ count_of v ss + to_ℕ (u == v)
unfolding count_of increment
count_of-increment u v [] = ground arith
count_of-increment u v (s ∷ ss) = ground (arith, count_of-increment u v ss)

count_of-absent :
    (u : ℕ) (ss : List Streams) → exists (λ t. t.user == u) ss ≡ false → count_of u ss ≡ 0
unfolding count_of exists
count_of-absent u [] h = refl
count_of-absent u (s ∷ ss) h = ground (arith, count_of-absent u ss)

count_of-decrement :
    (u v : ℕ) (ss : List Streams)
    → distinct ss ≡ true
    → count_of v (decrement u ss) ≡ count_of v ss - to_ℕ (u == v)
unfolding count_of decrement distinct
count_of-decrement u v [] h = ground arith
count_of-decrement u v (s ∷ ss) h =
    ground (arith, count_of-decrement u v ss, count_of-absent s.user ss)

exists-increment :
    (u w : ℕ) (ss : List Streams)
    → exists (λ t. t.user == w) (increment u ss) ≡ (exists (λ t. t.user == w) ss || (u == w))
unfolding exists increment
exists-increment u w [] = ground arith
exists-increment u w (s ∷ ss) = ground (arith, exists-increment u w ss)

exists-decrement :
    (u w : ℕ) (ss : List Streams)
    → exists (λ t. t.user == w) ss ≡ false
    → exists (λ t. t.user == w) (decrement u ss) ≡ false
unfolding exists decrement
exists-decrement u w [] h = refl
exists-decrement u w (s ∷ ss) h = ground (arith, exists-decrement u w ss)

distinct-increment :
    (u : ℕ) (ss : List Streams) → distinct ss ≡ true → distinct (increment u ss) ≡ true
unfolding distinct increment exists
distinct-increment u [] h = refl
distinct-increment u (s ∷ ss) h =
    ground (arith, distinct-increment u ss, exists-increment u s.user ss)

distinct-decrement :
    (u : ℕ) (ss : List Streams) → distinct ss ≡ true → distinct (decrement u ss) ≡ true
unfolding distinct decrement
distinct-decrement u [] h = refl
distinct-decrement u (s ∷ ss) h =
    ground (arith, distinct-decrement u ss, exists-decrement u s.user ss)

-- subscribe and release keep the hub tidy: a user has one entry and never has more than four streams, a fifth is
-- refused and changes nothing, and the server listens exactly while somebody streams. A stream that
-- was opened and closed leaves every user's count as it was.
pub streams_stay_bounded :
    (u ch : ℕ) (hub : Hub)
    → IsTidy hub
    → let (answer, hub') = subscribe u ch hub in
      IsTidy hub'
      × IsTidy (release u ch hub)
      × (count_of u hub.streams ≡ 4 → hub' ≡ hub)
      × (answer ≡ done ch
          → (v : ℕ) → count_of v hub'.streams ≡ count_of v hub.streams + to_ℕ (u == v))
      × ((v : ℕ) → count_of v (release u ch hub).streams ≡ count_of v hub.streams - to_ℕ (u == v))
unfolding subscribe release
streams_stay_bounded u ch hub (one, few, live) =
    let fewer = length-select-le (λ c. not (c == ch)) hub.wakers in
    let gone = λ (v : ℕ). count_of-decrement u v hub.streams one in
    let tidy : IsTidy (release u ch hub) = (
      distinct-decrement u hub.streams one,
      λ v. omega (arith, gone v, few v),
      ground (arith, fewer, live),
    ) in
    elim (Bool-cases (leb streams_per_user (count_of u hub.streams))) [
      | inl full ↦ rw full ((one, few, live), tidy, λ h. refl, λ h v. ground arith, gone)
      | inr room ↦ rw room (
        (
          distinct-increment u hub.streams one,
          λ v. ground (arith, count_of-increment u v hub.streams, few v),
          ground (arith, live),
        ),
        tidy,
        λ h. ground arith,
        λ h v. count_of-increment u v hub.streams,
        gone,
      )
    ]
