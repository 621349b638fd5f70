-- ===== src/System.antt =====
-- The environment of the program: the system calls and library calls that src/net.c, src/proxy.c
-- and src/wol.c make, with answers from a parameter, and the history of what was done. None of it
-- is the repository's code, so no line is mapped to it.
pub mod Rules
pub mod Blocks
use wake_on_lan.Base.{
  ◌≡◌, refl, ◌⊎◌, inl, inr, ℕ, Bool, Option, none, some, List, [], ◌∷◌, ◌==◌, if◌then◌else◌, Text,
}
use wake_on_lan.Stream.{Stream}

pub data Domain : Type 0 where
  pf_inet pf_packet : Domain

pub data Kind : Type 0 where
  sock_dgram sock_stream sock_raw : Kind

-- `struct sockaddr_in`, with the address's bytes and the port, and `struct sockaddr_ll`, of which
-- the program sets the family only.
pub data Address : Type 0 where
  inet : List ℕ → ℕ → Address
  link : Address

-- Where a string lies that a pointer leads to, and the two blocks of the magic packet.
pub data Origin : Type 0 where
  literal : Origin
  argument : Origin
  heap : ℕ → Origin
  magic_block packet_block : Origin

pub record Pointer : Type 0 where
  pub origin : Origin
  pub string : Text

-- A store behind the end of an array, a read behind the end, and a read of bytes never written.
pub data Fault : Type 0 where
  stray_write over_read indeterminate_read : Fault

-- What the program writes to the standard error.
pub data Message : Type 0 where
  no_root_privileges socket_failed setsockopt_failed close_failed : Message
  invalid_ip : Message
  could_not_connect : Text → ℕ → Message
  too_few_arguments no_address invalid_time invalid_port no_password : Message
  cannot_assemble : Text → Message
  invalid_password : Text → Message
  cannot_send : Text → Text → ℕ → Message
  cannot_open : Text → Message
  try_help : Message
  password_prompt : Text → Message
  newline : Message

-- What it writes to the standard output.
pub data Output : Type 0 where
  help_text version_text : Output
  waking : Text → Output
  with_host : Text → ℕ → Output
  dots : Output
  challenge_text : List ℕ → Output
  sum_text : List ℕ → ℕ → Output
  reply_text : List ℕ → Output

-- `struct termios`: the flag ECHO, and all else as a number.
pub record Termios : Type 0 where
  pub echo : Bool
  pub others : ℕ

pub data Event : Type 0 where
  resolved : Text → Event
  opened : Domain → Kind → Option ℕ → Event
  set_broadcast : ℕ → Event
  connected : ℕ → Address → Event
  sent_to : ℕ → List ℕ → Address → Event
  sent : ℕ → List ℕ → Event
  received : ℕ → ℕ → Event
  closed : ℕ → Event
  told : Message → Event
  printed : Output → Event
  slept : ℕ → Event
  set_terminal : Termios → Bool → Event
  freed : Origin → Event
  xmalloced : ℕ → Event
  xfreed : Event
  opened_file : Text → Event
  closed_file : Event
  faulted : Fault → Event

-- An answer of the system: what a call returns, or the value of `errno` where it returns -1.
pub data Answer (A : Type 0) : Type 0 where
  gives : A → Answer A
  fails : ℕ → Answer A

pub Answer-cases :
    {A : Type 0} (a : Answer A) → ((x : A) × (a ≡ gives x)) ⊎ ((e : ℕ) × (a ≡ fails e))
Answer-cases (gives x) = inl (x, refl)
Answer-cases (fails e) = inr (e, refl)

-- Every answer may depend on all that was done before, newest first. `stack` is what arrays hold
-- that were never written.
pub record Os : Type 0 where
  pub gethostbyname : List Event → Text → Option (List ℕ)
  pub socket : List Event → Domain → Kind → Answer ℕ
  pub setsockopt : List Event → ℕ → Answer (Unit {0})
  pub connect : List Event → ℕ → Address → Answer (Unit {0})
  pub sendto : List Event → ℕ → List ℕ → Address → Answer ℕ
  pub send : List Event → ℕ → List ℕ → Answer ℕ
  pub recv : List Event → ℕ → ℕ → Answer (List ℕ)
  pub close : List Event → ℕ → Answer (Unit {0})
  pub tcgetattr : List Event → Answer Termios
  pub tcsetattr : List Event → Termios → Answer (Unit {0})
  pub fopen : List Event → Text → Answer Stream
  pub stack : List Event → ℕ → List ℕ

-- The number of the next block of the heap counts the strings that were allocated.
pub record World : Type 0 where
  pub history : List Event
  pub errno : ℕ
  pub next : ℕ
  pub stdin : Stream

-- How a piece of the program ends: it returns, it ends the program, it makes a store that the
-- model gives no meaning to, or a loop has used its fuel.
pub data Outcome (A : Type 0) : Type 0 where
  returns : A → Outcome A
  exits : ℕ → Outcome A
  crashes : Outcome A
  unfinished : Outcome A

abbrev pub M : Type 0 → Type 0
M A = World → Outcome A × World

-- `andThen` on the outcome, so that a bind computes once its first part has.
abbrev pub continue : {A B : Type 0} → Outcome A → World → (A → M B) → Outcome B × World
continue (returns a) w f = f a w
continue (exits n) w f = (exits n, w)
continue crashes w f = (crashes, w)
continue unfinished w f = (unfinished, w)

infixl 5 ◌>>=◌ ◌>>◌
abbrev pub ◌>>=◌ : {A B : Type 0} → M A → (A → M B) → M B
◌>>=◌ m f w = let (o, w') = m w in continue o w' f

abbrev pub ◌>>◌ : {B : Type 0} → M (Unit {0}) → M B → M B
m >> k = m >>= λ _. k

abbrev pub pure : {A : Type 0} → A → M A
pure a w = (returns a, w)

abbrev pub exit : {A : Type 0} → ℕ → M A
exit n w = (exits n, w)

abbrev pub log : Event → World → World
log e w = record w { history = e ∷ w.history }

abbrev pub emit : Event → M (Unit {0})
emit e w = (returns tt, log e w)

abbrev pub tell : Message → M (Unit {0})
tell m = emit (told m)

abbrev pub print : Output → M (Unit {0})
print o = emit (printed o)

abbrev pub set_errno : ℕ → M (Unit {0})
set_errno n w = (returns tt, record w { errno = n })

abbrev pub get_errno : M ℕ
get_errno w = (returns w.errno, w)

-- A call that answers: -1, as `none`, sets `errno`.
abbrev pub answered : {A : Type 0} → Answer A → World → Outcome (Option A) × World
answered (gives a) w = (returns (some a), w)
answered (fails e) w = (returns none, record w { errno = e })

-- The descriptors that are open after what was done.
abbrev pub remove : ℕ → List ℕ → List ℕ
remove fd [] = []
remove fd (x ∷ xs) = if x == fd then xs else x ∷ remove fd xs

abbrev pub live : List Event → List ℕ
live [] = []
live (opened d k (some fd) ∷ h) = fd ∷ live h
live (closed fd ∷ h) = remove fd (live h)
live (e ∷ h) = live h
