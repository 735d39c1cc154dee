-- ===== src/Cmd/Flags.antt =====
-- cmd/server/main.go: the configuration from the environment and the flags.
pub mod Laws
use go_raft_kv.Prelude.{
  ℕ, String, Bool, true, false, not, ◌||◌, Option, none, some, List, [], ◌∷◌, if◌then◌else◌, str_eq,
  Result, ok, err,
}
use go_raft_kv.Prelude.Dict
use go_raft_kv.Prelude.Dict.{Dict}
use go_raft_kv.Raft.Node.{or_empty}
use go_raft_kv.Cmd.Text.{trim_space, split, cut}

-- `env` is os.Getenv, which gives "" for a variable that is not set.
unfoldable pub getenv : (String → String) → String → String → String
getenv env key fallback = if not (str_eq (env key) "") then env key else fallback

-- `atoi` is strconv.Atoi, with `none` for its error; `I` is the type of its numbers.
unfoldable pub getenv_int : {I : Type 0} → (String → Option I) → (String → String) → String → I → I
getenv_int atoi env key fallback =
    if not (str_eq (env key) "")
    then elim (atoi (env key)) [ some n ↦ n | none ↦ fallback ]
    else fallback

-- The loop of `parseMap`. Its error is told by the part that it is about; an equals sign is 61.
unfoldable pub parse_parts : List String → Dict String → Result String (Dict String)
unfolding trim_space cut
parse_parts [] out = ok out
parse_parts (part ∷ parts) out =
    let (key, value, found) = cut 61 (trim_space part) in
    elim (not found || (str_eq key "" || str_eq value "")) [
      | true ↦ err part
      | false ↦ parse_parts parts (Dict.put out key value)
    ]

unfoldable pub parse_map : String → Result String (Dict String)
unfolding parse_parts split
parse_map raw =
    let text = trim_space raw in if str_eq text "" then ok [] else parse_parts (split 44 text) []

-- `config`, over the types of integers and durations.
pub record Config (I D : Type 0) : Type 0 where
  pub id : String
  pub listen : String
  pub advertise : String
  pub data_dir : String
  pub peers : Dict String
  pub client_addrs : Dict String
  pub election_min : D
  pub election_max : D
  pub heartbeat : D
  pub snapshot_threshold : I

-- What is given on the command line, for the flags with a text and for the integer one.
pub record Given (I : Type 0) : Type 0 where
  pub text : String → Option String
  pub snapshot_threshold : Option I

abbrev pub or_default {ℓ} : {A : Type ℓ} → Option A → A → A
or_default (some a) d = a
or_default none d = d

abbrev pub with_own_address : String → String → Dict String → Dict String
with_own_address id advertise addrs =
    if str_eq (or_empty (Dict.get addrs id)) "" then Dict.put addrs id advertise else addrs

module _ {I D : Type 0} (atoi : String → Option I) (parse_duration : String → Result String D)
    (sixty_four : I) (env : String → String) (given : Given I) where
  -- A flag's value, or the default that the environment gives it.
  abbrev flag_value : String → String → String → String
  flag_value name key fallback = or_default (given.text name) (getenv env key fallback)

  -- `parseFlags`, behind `flag.Parse`. The configuration that comes with an error is not used.
  unfoldable pub parse_flags : Result String (Config I D)
  unfolding getenv getenv_int parse_map
  parse_flags =
      let id = flag_value "id" "NODE_ID" "node1" in
      let advertise = flag_value "advertise" "RAFT_ADVERTISE" "127.0.0.1:9001" in
      elim (parse_map (flag_value "peers" "RAFT_PEERS" "node1=127.0.0.1:9001")) [
        | err e ↦ err e
        | ok peers ↦ elim (parse_map (flag_value "client-addrs" "RAFT_CLIENT_ADDRS" "")) [
          | err e ↦ err e
          | ok addrs ↦ elim (parse_duration (flag_value "election-min" "RAFT_ELECTION_MIN" "1s")) [
            | err e ↦ err e
            | ok election_min ↦
                elim (parse_duration (flag_value "election-max" "RAFT_ELECTION_MAX" "2s")) [
                  | err e ↦ err e
                  | ok election_max ↦
                      elim (parse_duration (flag_value "heartbeat" "RAFT_HEARTBEAT" "150ms")) [
                        | err e ↦ err e
                        | ok heartbeat ↦ ok (record {
                          id = id;
                          listen = flag_value "listen" "RAFT_LISTEN" ":9001";
                          advertise = advertise;
                          data_dir = flag_value "data-dir" "RAFT_DATA_DIR" "data/node1";
                          peers = peers;
                          client_addrs = with_own_address id advertise addrs;
                          election_min = election_min;
                          election_max = election_max;
                          heartbeat = heartbeat;
                          snapshot_threshold =
                              or_default given.snapshot_threshold
                                (getenv_int atoi env "RAFT_SNAPSHOT_THRESHOLD" sixty_four);
                        })
                      ]
                ]
          ]
        ]
      ]
