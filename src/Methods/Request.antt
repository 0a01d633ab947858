-- ===== src/Methods/Request.antt =====
-- How a node serves a request: modules/cf-core/src/methods/controller.ts and request-handler.ts. A
-- handler may throw, and works on what a node holds.
use indra.Prelude.{ℕ, String, Bool, Option, List, Result, ok, err, throw_if, ◌≡◌, refl, ap, ◌∙◌}
use indra.States.{AppState}
use indra.Ethers.{Ethers}
use indra.AppInstance.{AppInstance}
use indra.Commitment.{Signing}
use indra.Commitment.Multisig.{NetworkContext, ParamsCoder}
use indra.Machine.{Process, run_protocol}
use indra.Protocol.Outcome.{Decoder, Chain}
use indra.Store.Service.{StoreService}
use indra.Store.Lookup.{StoreSearch}
use indra.Store.Node.{World, node_middleware}

-- Code that may throw and works on a node.
abbrev pub Request : Type 0 → Type 0 → Type 0
Request W A = World W → Result A × World W

-- The rest of a handler, after its first part.
abbrev pub continue : {W A B : Type 0} → Result A × World W → (A → Request W B) → Result B × World W
continue (err message, w) next = (err message, w)
continue (ok value, w) next = next value w

infixl 5 ◌>>=◌ ◌>>◌
abbrev pub ◌>>=◌ : {W A B : Type 0} → Request W A → (A → Request W B) → Request W B
◌>>=◌ first next w = continue (first w) next

abbrev pub ◌>>◌ : {W B : Type 0} → Request W (Unit {0}) → Request W B → Request W B
◌>>◌ first next w = continue (first w) (λ _. next)

abbrev pub lift : {W A : Type 0} → Result A → Request W A
lift outcome w = (outcome, w)

abbrev pub check : {W : Type 0} → Bool → String → Request W (Unit {0})
check bad message = lift (throw_if bad message)

-- A question to the store, and a change of it.
abbrev pub ask : {W A : Type 0} → (W → Result A) → Request W A
ask question w = (question w.store, w)

abbrev pub stored_or : {W : Type 0} → World W → Result W → Result (Unit {0}) × World W
stored_or w (err message) = (err message, w)
stored_or w (ok store) = (ok tt, record w { store = store })

abbrev pub save : {W : Type 0} → (W → Result W) → Request W (Unit {0})
save change w = stored_or w (change w.store)

-- What the handlers read of the request handler and of its protocol runner. The answers of the chain
-- and of the app contracts, the identifiers that `uuid` makes and the field `recipient` of a refund
-- app's state are parameters.
pub record RequestHandler (W : Type 0) : Type 0 where
  pub ethers : Ethers
  pub signing : Signing
  pub coder : ParamsCoder
  pub decoder : Decoder
  pub chain : Chain
  pub svc : StoreService W
  pub search : StoreSearch W
  pub public_identifier : String
  pub network : NetworkContext
  pub coin_balance_refund_app : String
  pub process_id : String
  pub compute_state_transition : AppInstance → String → Result AppState
  pub encode_action : AppInstance → String → Result String
  pub encode_state : AppInstance → AppState → Result String
  pub create2_multisig_address : Option (List String → Result String)
  pub recipient_of : AppState → Option String
  pub sign : ℕ → String → String

-- The runner with the middlewares of the node.
abbrev pub run : {W : Type 0} → RequestHandler W → Process → Request W (Unit {0})
run h process w = run_protocol (node_middleware h.ethers h.svc h.sign) process w

-- A controller: its four parts. What comes before the execution may fill in parameters.
pub record Controller (W P R : Type 0) : Type 0 where
  pub before_execution : P → Request W P
  pub get_required_lock_names : P → Request W (List String)
  pub execute_method_implementation : P → Request W R
  pub after_execution : P → Request W (Unit {0})

-- `executeMethod`, where the queues of its locks are empty, so that the task runs at once.
unfoldable pub execute_method : {W P R : Type 0} → Controller W P R → P → Request W R
execute_method c params = do
  filled ← c.before_execution params
  lock_names ← c.get_required_lock_names filled
  ret ← c.execute_method_implementation filled
  c.after_execution filled
  lift (ok ret)

-- A request whose checks pass: what its implementation makes of the node, and then what comes after it.
pub execute_method-passes :
    {W P R : Type 0} (c : Controller W P R) (params filled : P) (names : List String) (w : World W)
    → c.before_execution params w ≡ (ok filled, w)
    → c.get_required_lock_names filled w ≡ (ok names, w)
    → execute_method c params w
      ≡ continue
          (c.execute_method_implementation filled w)
          (λ ret. c.after_execution filled >> lift (ok ret))
unfolding execute_method
execute_method-passes {R = R} c params filled names w before locks =
    ap
      (λ r. continue r (λ given. c.get_required_lock_names given >>= λ _.
        c.execute_method_implementation given >>= λ ret. c.after_execution given >> lift (ok ret)))
      before
    ∙ ap
        (λ r. continue r (λ _. c.execute_method_implementation filled >>= λ ret.
          c.after_execution filled >> lift (ok ret)))
        locks

-- A request that is refused by its checks.
pub execute_method-refused :
    {W P R : Type 0} (c : Controller W P R) (params : P) (message : String) (w : World W)
    → c.before_execution params w ≡ (err message, w)
    → execute_method c params w ≡ (err message, w)
unfolding execute_method
execute_method-refused c params message w before = rw before refl
