-- ===== src/Client/Retry.antt =====
-- The thread of src/socket/SocketClient.cpp that connects again.
use libbundle.Prelude.{
  ◌||◌, if◌then◌else◌, map, ℕ, ◌≡◌, ◌∙◌, refl, ap, Bool, true, false, none, some, List, [], ◌∷◌,
  ◌++◌, arith,
}
use libbundle.Client.{is_done, proceed, Client, Attempt, connect_server, retry_loop, give_socket}

if_skip {ℓ} : {A : Type ℓ} (b : Bool) (x y : A) → b ≡ false → (if b then x else y) ≡ y
if_skip b x y e = rw e refl

if_take {ℓ} : {A : Type ℓ} (b : Bool) (x y : A) → b ≡ true → (if b then x else y) ≡ x
if_take b x y e = rw e refl

-- The kernel gives the socket s, with which no connection is made; it gives none.
abbrev pub refusal : ℕ → Attempt
refusal s = record { socket = some s; connects = false }

abbrev pub socketless : Attempt
socketless = record { socket = none; connects = false }

abbrev pub success : ℕ → Attempt
success s = record { socket = some s; connects = true }

-- One round of the thread.
retry_again :
    (a : Attempt) (more : List Attempt) (c : Client) (tried : Bool × Client)
    → is_done c ≡ false
    → connect_server a (record c { fd = none }) ≡ tried
    → retry_loop (a ∷ more) c ≡ retry_loop more (proceed tried)
unfolding retry_loop
retry_again a more c tried h e = rw h (ap (λ p. retry_loop more (proceed p)) e)

-- A client whose attempt is marked as being in progress.
abbrev pub IsStuck : Client → Type 0
IsStuck c = (is_done c ≡ false) × (c.active ≡ false) × (c.connect_in_progress ≡ true)

refused_stuck :
    (a : Attempt) (c : Client)
    → c.active ≡ false
    → c.connect_in_progress ≡ true
    → connect_server a c ≡ (false, c)
unfolding connect_server
refused_stuck a c k p = if_skip c.active _ _ k ∙ if_take c.connect_in_progress _ _ p

no_socket :
    (connects : Bool) (c : Client)
    → c.active ≡ false
    → c.connect_in_progress ≡ false
    → connect_server (record { socket = none; connects = connects }) c
      ≡ (false, record c { fd = none; connect_in_progress = true })
unfolding connect_server
no_socket connects c k p = if_skip c.active _ _ k ∙ if_skip c.connect_in_progress _ _ p

stuck :
    (tries : List Attempt) (c : Client)
    → IsStuck c
    → ((retry_loop tries c).0 ≡ false) × ((retry_loop tries c).1.added ≡ c.added)
unfolding retry_loop
stuck [] c (h, k, p) = (rw h refl, rw h refl)
stuck (a ∷ more) c (h, k, p) =
    let e = retry_again a more c _ h (refused_stuck a (record c { fd = none }) k p) in
    let rest = stuck more (record c { fd = none }) (h, k, p) in
    (ap (λ r. r.0) e ∙ rest.0, ap (λ r. r.1.added) e ∙ rest.1)

-- A client that waits for its connection.
abbrev pub IsRetrying : Client → Type 0
IsRetrying c = (is_done c ≡ false) × (c.active ≡ false) × (c.connect_in_progress ≡ false)

attempted :
    (s : ℕ) (connects : Bool) (c : Client)
    → c.active ≡ false
    → c.connect_in_progress ≡ false
    → connect_server (record { socket = some s; connects = connects }) c
      ≡ (connects, record c { fd = some s; connect_in_progress = false })
unfolding connect_server
attempted s connects c k p = if_skip c.active _ _ k ∙ if_skip c.connect_in_progress _ _ p

after_refusals :
    (refused : List ℕ) (more : List Attempt) (c : Client)
    → IsRetrying c
    → (c' : Client) × (retry_loop (map refusal refused ++ more) c ≡ retry_loop more c')
      × IsRetrying c'
      × (c'.added ≡ c.added)
after_refusals [] more c h = (c, refl, h, refl)
after_refusals (s ∷ refused) more c (h, k, p) =
    let (c', e, h', a) =
      after_refusals refused more (record c { fd = some s; connect_in_progress = false })
        (h, k, refl) in
    (
      c',
      retry_again (refusal s) (map refusal refused ++ more) c _ h
            (attempted s false (record c { fd = none }) k p)
          ∙ e,
      h',
      a,
    )

or_true : (a b : Bool) → b ≡ true → (a || b) ≡ true
or_true a b e = ground arith

ended : (c : Client) → c.active ≡ true → retry_loop [] c ≡ (true, give_socket c)
unfolding retry_loop
ended c k =
    if_take (is_done c) _ _ (or_true c.is_stop c.active k)
    ∙ ap (λ x. (true, x)) (if_take c.active (give_socket c) c k)

-- After any number of attempts in which the connection was refused: an attempt that succeeds ends the thread,
-- with the worker given the new socket and no other; but once the system has no socket to give, no later
-- attempt can succeed, whatever the system does then, and the worker is never given one.
pub retry_loop_lem :
    (refused : List ℕ) (c : Client) (s : ℕ) (more : List Attempt)
    → IsRetrying c
    → ((retry_loop (map refusal refused ++ success s ∷ []) c).0 ≡ true)
      × ((retry_loop (map refusal refused ++ success s ∷ []) c).1.added ≡ c.added ++ s ∷ [])
      × ((retry_loop (map refusal refused ++ socketless ∷ more) c).0 ≡ false)
      × ((retry_loop (map refusal refused ++ socketless ∷ more) c).1.added ≡ c.added)
retry_loop_lem refused c s more h =
    let (c1, e1, (d1, k1, p1), a1) = after_refusals refused (success s ∷ []) c h in
    let won =
      e1
      ∙ retry_again (success s) [] c1 _ d1 (attempted s true (record c1 { fd = none }) k1 p1)
      ∙ ended (record c1 { fd = some s; connect_in_progress = false; active = true }) refl in
    let (c2, e2, (d2, k2, p2), a2) = after_refusals refused (socketless ∷ more) c h in
    let lost =
      e2 ∙ retry_again socketless more c2 _ d2 (no_socket false (record c2 { fd = none }) k2 p2) in
    let never = stuck more (record c2 { fd = none; connect_in_progress = true }) (d2, k2, refl) in
    (
      ap (λ r. r.0) won,
      ap (λ r. r.1.added) won ∙ ap (λ q. q ++ s ∷ []) a1,
      ap (λ r. r.0) lost ∙ never.0,
      ap (λ r. r.1.added) lost ∙ never.1 ∙ a2,
    )
