-- ===== src/MepAuth/BlockList.antt =====
-- mepauth/controllers/blocklist.go: the access keys that sent an invalid signature. A timer is an
-- object; its goroutine, which waits for it, is known by the key that it deletes. A timer that has
-- fired leaves its goroutine about to delete; that deletion is a step of its own. The goroutine of a
-- timer that was stopped waits for ever and does nothing.
pub mod Entries
pub mod Locks
pub mod Watch
use mep.Prelude.{
  ℕ, zero, suc, ◌+◌, ◌-◌, String, ◌≡◌, Bool, true, false, ◌&&◌, ◌||◌, not, Option, none, some, ◌==◌,
  eqb, leb, if◌then◌else◌,
}

pub data AkState : Type 0 where
  state_none validation_in_progress under_block_list : AkState

-- `ClearTimer` with the key of its goroutine
pub record Timer : Type 0 where
  pub number : ℕ
  pub ak : String

pub record AkSessionInfo : Type 0 where
  pub clear_timer : Timer
  pub state : AkState
  pub ak : String
  pub validate_counter : ℕ  -- int64

-- `authInfoList`, the timers that run, how many goroutines are about to delete a key, and the number
-- of the next timer
pub record AuthInfoList : Type 0 where
  pub infos : String → Option AkSessionInfo
  pub armed : Timer → Bool
  pub fired : String → ℕ
  pub next : ℕ

abbrev pub validation_counter : ℕ
validation_counter = 3

-- `InitAuthInfoList`
abbrev pub init_auth_info_list : AuthInfoList
init_auth_info_list = record { infos = λ k. none; armed = λ t. false; fired = λ k. 0; next = 0 }

-- a map with one key changed
abbrev pub put {ℓ} : {A : Type ℓ} → String → A → (String → A) → String → A
put k v m j = if k == j then v else m j

abbrev pub same_timer : Timer → Timer → Bool
same_timer t u = eqb t.number u.number && t.ak == u.ak

abbrev pub arm : Timer → (Timer → Bool) → Timer → Bool
arm t armed u = same_timer t u || armed u

abbrev pub disarm : Timer → (Timer → Bool) → Timer → Bool
disarm t armed u = not (same_timer t u) && armed u

abbrev pub is_under_block_list : AkState → Bool
is_under_block_list under_block_list = true
is_under_block_list validation_in_progress = false
is_under_block_list state_none = false

abbrev pub is_validating : AkState → Bool
is_validating under_block_list = false
is_validating validation_in_progress = true
is_validating state_none = false

unfoldable pub is_ak_in_block_list : String → AuthInfoList → Bool
is_ak_in_block_list ak s = elim (s.infos ak) [ none ↦ false | some i ↦ is_under_block_list i.state ]

unfoldable pub is_ak_in_validation_list : String → AuthInfoList → Bool
is_ak_in_validation_list ak s = elim (s.infos ak) [ none ↦ false | some i ↦ is_validating i.state ]

unfoldable pub start_validating_ak : String → AuthInfoList → AuthInfoList
start_validating_ak ak s =
    let timer : Timer = record { number = s.next; ak = ak } in
    record {
      infos =
          put ak
            (some (record {
              clear_timer = timer;
              state = validation_in_progress;
              ak = ak;
              validate_counter = 1;
            }))
            s.infos;
      armed = arm timer s.armed;
      fired = s.fired;
      next = suc s.next;
    }

unfoldable pub stop_validating_ak : String → AuthInfoList → AuthInfoList
stop_validating_ak ak s = elim (s.infos ak) [
  | none ↦ s
  | some i ↦ record {
    infos =
        put ak
          (some (record {
            clear_timer = i.clear_timer;
            state = state_none;
            ak = i.ak;
            validate_counter = 0;
          }))
          s.infos;
    armed = disarm i.clear_timer s.armed;
    fired = s.fired;
    next = s.next;
  }
]

unfoldable pub start_block_listing_ak : String → AuthInfoList → AuthInfoList
start_block_listing_ak ak s = elim (s.infos ak) [
  | none ↦ s
  | some i ↦
      let timer : Timer = record { number = s.next; ak = ak } in
      record {
        infos =
            put ak
              (some (record {
                clear_timer = timer;
                state = under_block_list;
                ak = i.ak;
                validate_counter = i.validate_counter;
              }))
              s.infos;
        armed = arm timer s.armed;
        fired = s.fired;
        next = suc s.next;
      }
]

-- `akInfo.ValidateCounter++`
abbrev pub count_up : String → AkSessionInfo → AuthInfoList → AuthInfoList
count_up ak i s = record {
  infos =
      put ak
        (some (record {
          clear_timer = i.clear_timer;
          state = i.state;
          ak = i.ak;
          validate_counter = suc i.validate_counter;
        }))
        s.infos;
  armed = s.armed;
  fired = s.fired;
  next = s.next;
}

unfoldable pub process_ak_for_block_listing : String → AuthInfoList → AuthInfoList
process_ak_for_block_listing ak s = elim (is_ak_in_validation_list ak s) [
  | false ↦ start_validating_ak ak s
  | true ↦ elim (s.infos ak) [
    | none ↦ s
    | some i ↦ elim (leb validation_counter (suc i.validate_counter)) [
      | true ↦ start_block_listing_ak ak (stop_validating_ak ak (count_up ak i s))
      | false ↦ count_up ak i s
    ]
  ]
]

-- `delete(authInfoList, ak)`
abbrev pub delete_info : String → AuthInfoList → AuthInfoList
delete_info ak s = record {
  infos = put ak none s.infos;
  armed = s.armed;
  fired = s.fired;
  next = s.next;
}

unfoldable pub clear_ak_from_block_listing : String → AuthInfoList → AuthInfoList
clear_ak_from_block_listing ak s =
    if is_ak_in_validation_list ak s then delete_info ak (stop_validating_ak ak s) else s

-- a timer that runs fires
unfoldable pub expire : Timer → AuthInfoList → AuthInfoList
expire t s = record {
  infos = s.infos;
  armed = disarm t s.armed;
  fired = put t.ak (suc (s.fired t.ak)) s.fired;
  next = s.next;
}

-- its goroutine goes on, and deletes its key
unfoldable pub delete_expired : String → AuthInfoList → AuthInfoList
delete_expired ak s = record {
  infos = put ak none s.infos;
  armed = s.armed;
  fired = put ak (s.fired ak - 1) s.fired;
  next = s.next;
}

-- The program: the list, and how many handlers of a key have passed the test of `Post` that it is not
-- locked and have not ended. Handlers run at the same time, without a lock.
pub record Server : Type 0 where
  pub list : AuthInfoList
  pub passed : String → ℕ

abbrev pub init_server : Server
init_server = record { list = init_auth_info_list; passed = λ k. 0 }

abbrev pub enter : String → Server → Server
enter ak s = record { list = s.list; passed = put ak (suc (s.passed ak)) s.passed }

-- a handler of the key ends, with what it makes of the list
abbrev pub leave : String → AuthInfoList → Server → Server
leave ak list s = record { list = list; passed = put ak (s.passed ak - 1) s.passed }

-- What can happen next: a handler passes the test of the block list; one that has passed it meets an
-- invalid signature, a valid one, or neither; a timer fires; a goroutine whose timer has fired goes on.
pub data Step : Server → Server → Type 0 where
  passes_test :
      (ak : String) (s : Server) → is_ak_in_block_list ak s.list ≡ false → Step s (enter ak s)
  invalid_signature :
      (ak : String) (n : ℕ) (s : Server)
      → s.passed ak ≡ suc n
      → Step s (leave ak (process_ak_for_block_listing ak s.list) s)
  valid_signature :
      (ak : String) (n : ℕ) (s : Server)
      → s.passed ak ≡ suc n
      → Step s (leave ak (clear_ak_from_block_listing ak s.list) s)
  no_signature :
      (ak : String) (n : ℕ) (s : Server) → s.passed ak ≡ suc n → Step s (leave ak s.list s)
  timer_fires :
      (t : Timer) (s : Server)
      → s.list.armed t ≡ true
      → Step s (record s { list = expire t s.list })
  goroutine_deletes :
      (ak : String) (n : ℕ) (s : Server)
      → s.list.fired ak ≡ suc n
      → Step s (record s { list = delete_expired ak s.list })

-- a run from the start of the program
pub data Reachable : Server → Type 0 where
  start : Reachable init_server
  after : (s s' : Server) → Reachable s → Step s s' → Reachable s'
