-- ===== src/Cmd/Kvctl.antt =====
-- cmd/kvctl/main.go: the command-line client. The calls over gRPC are a `Client`.
pub mod Retry
pub mod Cluster
use Prim.Native.String.{◌++◌}
use go_raft_kv.Prelude.{
  ℕ, String, Bool, true, false, not, Option, none, some, List, [], ◌∷◌, if◌then◌else◌, str_eq, map,
  Result, ok, err,
}
use go_raft_kv.Api
use go_raft_kv.Cmd.Text.{trim_space, split}
use go_raft_kv.Cmd.Kvctl.Retry.{
  put_answers, get_answers, delete_answers, cas_answers, with_leader_retry_using,
}

-- `defaultEndpoints`, on the value of KV_ENDPOINTS
unfoldable pub default_endpoints : String → String
default_endpoints env =
    if not (str_eq env "")
    then env
    else "127.0.0.1:9101,127.0.0.1:9102,127.0.0.1:9103,127.0.0.1:9001"

unfoldable pub keep_parts : List String → List String
unfolding trim_space
keep_parts [] = []
keep_parts (p ∷ ps) =
    let part = trim_space p in
    let rest = keep_parts ps in if not (str_eq part "") then part ∷ rest else rest

-- `splitCSV`; a comma is 44.
unfoldable pub split_csv : String → List String
unfolding keep_parts split
split_csv raw = keep_parts (split 44 raw)

-- One call of each method at an endpoint, over the state `W` of the world: `call`.
pub record Client (W : Type 0) : Type 0 where
  pub put : W → String → Api.PutRequest → W × Result String Api.PutResponse
  pub get : W → String → Api.GetRequest → W × Result String Api.GetResponse
  pub delete : W → String → Api.DeleteRequest → W × Result String Api.DeleteResponse
  pub cas : W → String → Api.CasRequest → W × Result String Api.CasResponse
  pub status : W → String → W × Result String Api.StatusResponse

-- A command's error, or the line that it prints.
unfoldable pub put_line : Result String Api.PutResponse → Result String String
put_line (err e) = err e
put_line (ok resp) = if not resp.ok then err resp.error else ok "OK"

unfoldable pub get_line : Result String Api.GetResponse → Result String String
get_line (err e) = err e
get_line (ok resp) =
    if not resp.ok
    then err resp.error
    else if not resp.found
    then err "not found"
    else ok resp.value

unfoldable pub delete_line : Result String Api.DeleteResponse → Result String String
delete_line (err e) = err e
delete_line (ok resp) =
    if not resp.ok then err resp.error else if resp.found then ok resp.previous_value else ok "OK"

-- `quote` is `%q`.
unfoldable pub cas_line : (String → String) → Result String Api.CasResponse → Result String String
cas_line quote (err e) = err e
cas_line quote (ok resp) =
    if not resp.ok
    then err resp.error
    else if not resp.swapped
    then err ("not swapped current=" ++ quote resp.current_value)
    else ok "OK"

module _ {W : Type 0} (client : Client W) (endpoints : List String) where
  unfoldable pub put : String → String → W → W × Result String String
  unfolding put_line
  put key value w =
      let (w', r) =
        with_leader_retry_using put_answers
          (λ u e. client.put u e (record { key = key; value = value })) endpoints w in
      (w', put_line r)

  unfoldable pub get : String → W → W × Result String String
  unfolding get_line
  get key w =
      let (w', r) =
        with_leader_retry_using get_answers (λ u e. client.get u e (record { key = key })) endpoints
          w in
      (w', get_line r)

  unfoldable pub del : String → W → W × Result String String
  unfolding delete_line
  del key w =
      let (w', r) =
        with_leader_retry_using delete_answers (λ u e. client.delete u e (record { key = key }))
          endpoints w in
      (w', delete_line r)

  unfoldable pub cas : (String → String) → String → String → String → W → W × Result String String
  unfolding cas_line
  cas quote key expected value w =
      let (w', r) =
        with_leader_retry_using cas_answers
          (λ u e. client.cas u e (record { key = key; expected = expected; value = value }))
          endpoints w in
      (w', cas_line quote r)

module _ {W : Type 0} (client : Client W) where
  abbrev pub with_status :
      Result String Api.StatusResponse → List Api.StatusResponse → List Api.StatusResponse
  with_status (err e) rest = rest
  with_status (ok resp) rest = resp ∷ rest

  -- The endpoints that answer, in their order.
  unfoldable pub statuses : List String → W → W × List Api.StatusResponse
  statuses [] w = (w, [])
  statuses (e ∷ es) w =
      let (w', r) = client.status w e in
      let (w'', rest) = statuses es w' in (w'', with_status r rest)

  -- `encode` is the indented JSON of the list.
  unfoldable pub status :
      (List Api.StatusResponse → String) → List String → W → W × Result String String
  unfolding statuses
  status encode endpoints w =
      let (w', found) = statuses endpoints w in
      elim found [ [] ↦ (w', err "no reachable endpoints") | s ∷ ss ↦ (w', ok (encode (s ∷ ss))) ]

-- How the program ends: exit code 2 with the usage or without endpoints, else a command's end.
pub data Exit : Type 0 where
  usage no_endpoints : Exit
  ended : Result String String → Exit

abbrev pub ending : {W : Type 0} → W × Result String String → W × Exit
ending (w, r) = (w, ended r)

module _ {W : Type 0} (client : Client W) (quote : String → String)
    (encode : List Api.StatusResponse → String) (endpoints : List String) where
  put_args : List String → W → W × Exit
  put_args (key ∷ value ∷ []) w = ending (put client endpoints key value w)
  put_args args w = (w, usage)

  get_args : List String → W → W × Exit
  get_args (key ∷ []) w = ending (get client endpoints key w)
  get_args args w = (w, usage)

  delete_args : List String → W → W × Exit
  delete_args (key ∷ []) w = ending (del client endpoints key w)
  delete_args args w = (w, usage)

  cas_args : List String → W → W × Exit
  cas_args (key ∷ expected ∷ value ∷ []) w =
      ending (cas client endpoints quote key expected value w)
  cas_args args w = (w, usage)

  unfoldable pub run_command : String → List String → W → W × Exit
  unfolding put_args get_args delete_args cas_args
  run_command cmd args w =
      if str_eq cmd "put"
      then put_args args w
      else if str_eq cmd "get"
      then get_args args w
      else if str_eq cmd "delete"
      then delete_args args w
      else if str_eq cmd "cas"
      then cas_args args w
      else if str_eq cmd "status"
      then ending (status client encode endpoints w)
      else (w, usage)

module _ {W : Type 0} (client : Client W) (quote : String → String)
    (encode : List Api.StatusResponse → String) where
  -- `main`, on the value of the endpoints' flag and the arguments behind the flags.
  unfoldable pub main : String → List String → W → W × Exit
  unfolding run_command split_csv
  main endpoints_flag [] w = (w, usage)
  main endpoints_flag (cmd ∷ args) w = elim (split_csv endpoints_flag) [
    | [] ↦ (w, no_endpoints)
    | e ∷ es ↦ run_command client quote encode (e ∷ es) cmd args w
  ]
