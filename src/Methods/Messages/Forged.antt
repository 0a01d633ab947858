-- ===== src/Methods/Messages/Forged.antt =====
-- What becomes of a message without a valid signature.
use indra.Prelude.{
  String, ℕ, pos, eqb_ℤ, false, Option, some, Result, ok, err, ◌≡◌, refl, sym, ap, subst,
}
use indra.Ethers.{Ethers}
use indra.Keys.{xkey_kth_address}
use indra.Commitment.{Signing}
use indra.StateChannel.Channel.{StateChannel}
use indra.Machine.{Process, thrown, attempt, run_protocol}
use indra.Protocol.Signature.{assert_is_valid_signature}
use indra.Protocol.Exchange.{Exchange, responding, unassigned_seq_no}
use indra.Protocol.Install.Exchange as InstallExchange
use indra.Protocol.Install.Exchange.{Install, Installation, prepare_install}
use indra.Protocol.Propose.{Proposed, responder_prepares, propose_exchange}
use indra.Protocol.Uninstall.{Uninstalled, prepare_uninstall, uninstall_exchange}
use indra.Protocol.Update.{Prepared, prepare, update_exchange, update, take_action}
use indra.Protocol.Setup.{SetUp, prepare_setup, setup_exchange}
use indra.Store.Node.{World}
use indra.Store.Persist.{get_state_channel}
use indra.Methods.Request.{RequestHandler, run}
use indra.Methods.Messages.{
  ProtocolParam, setup, propose, install, uninstall, update_state, take_action_on, unknown,
  ProtocolMessage, step_of, exchange_step, install_of, setup_of, propose_of, uninstall_of,
  update_of, protocol_step, run_protocol_with_message, handle_received_protocol_message,
}

-- A generator that throws before it yields.
abbrev Refuses : Process → Type 0
Refuses process = (message : String) × (process ≡ thrown message)

attempt-Refuses :
    {A : Type 0} (r : Result A) (next : A → Process)
    → ((a : A) → r ≡ ok a → Refuses (next a))
    → Refuses (attempt r next)
attempt-Refuses (err message) next refuses = (message, refl)
attempt-Refuses (ok a) next refuses = refuses a refl

attempt-err :
    {A : Type 0} (r : Result A) (next : A → Process) {message : String}
    → r ≡ err message
    → Refuses (attempt r next)
attempt-err r next {message = message} is = (message, ap (λ result. attempt result next) is)

-- The signature is none of this hash by this key of the party.
abbrev pub IsInvalid : Ethers → Signing → String → Option String → ℕ → String → Type 0
IsInvalid e s xpub signature key hash =
    (message : String) × (assert_is_valid_signature e s (xkey_kth_address e xpub key) (some hash)
        signature
      ≡ err message)

responding-Refuses :
    {P : Type 0} (e : Ethers) (s : Signing) (x : Exchange P) (signature : Option String)
    → ((p : P)
        → x.responder_prepares ≡ ok p
        → IsInvalid e s x.initiator_xpub signature (x.key_index p) (x.hash p))
    → Refuses (responding e s x signature)
unfolding responding
responding-Refuses e s x signature forged =
    attempt-Refuses x.responder_prepares _ (λ p is. attempt-err _ _ (forged p is).1)

module _ {W : Type 0} (h : RequestHandler W) where
  installing-Refuses :
      (u : Install) (signature : Option String)
      → ((p : Installation)
          → prepare_install h.ethers h.signing h.coder u ≡ ok p
          → IsInvalid h.ethers h.signing u.params.initiator_xpub signature 0 p.hash)
      → Refuses (InstallExchange.responding h.ethers h.signing h.coder u signature)
  unfolding InstallExchange.responding
  installing-Refuses u signature forged =
      attempt-Refuses _ _ (λ p is. attempt-err _ _ (forged p is).1)

  -- The signature in the message is none of the initiator's, of what the protocol has to be signed
  -- for: what the node itself prepares from the message and its channel, with the key of the channel
  -- for a multisig transaction, and with the key of the app's number for a state of an app.
  abbrev pub IsForged : ProtocolMessage → (String → Result StateChannel) → ProtocolParam → Type 0
  IsForged msg stored (setup m from to) =
      (p : SetUp)
      → prepare_setup h.ethers h.signing (setup_of h msg m from to) ≡ ok p
      → IsInvalid h.ethers h.signing from msg.signature 0 p.hash
  IsForged msg stored (propose m params) =
      (p : Proposed)
      → responder_prepares h.ethers h.signing (propose_of h msg (stored m) params) ≡ ok p
      → IsInvalid h.ethers h.signing params.initiator_xpub msg.signature p.app_proposal.app_seq_no
          p.hash
  IsForged msg stored (install m params) =
      (p : Installation)
      → prepare_install h.ethers h.signing h.coder (install_of h msg (stored m) params) ≡ ok p
      → IsInvalid h.ethers h.signing params.initiator_xpub msg.signature 0 p.hash
  IsForged msg stored (uninstall m from to id block) =
      (p : Uninstalled)
      → prepare_uninstall h.ethers h.signing h.decoder h.chain
          (uninstall_of h msg (stored m) from to id block)
        ≡ ok p
      → IsInvalid h.ethers h.signing from msg.signature p.app.app_seq_no p.hash
  IsForged msg stored (update_state m from to id new_state) =
      (p : Prepared)
      → prepare h.ethers h.signing (update (update_of h msg (stored m) from to id) new_state) ≡ ok p
      → IsInvalid h.ethers h.signing from msg.signature p.app.app_seq_no p.hash
  IsForged msg stored (take_action_on m from to id action) =
      (p : Prepared)
      → prepare h.ethers h.signing
          (take_action (update_of h msg (stored m) from to id) h.compute_state_transition action)
        ≡ ok p
      → IsInvalid h.ethers h.signing from msg.signature p.app.app_seq_no p.hash
  IsForged msg stored (unknown protocol) = Unit {0}

  module _ (msg : ProtocolMessage) (second : msg.seq ≡ pos 1) where
    step_of-second : (a b : Process) → step_of h msg.seq a b ≡ b
    step_of-second a b = rw second refl

    exchange_step-Refuses :
        {P : Type 0} (x : Exchange P)
        → ((p : P)
            → x.responder_prepares ≡ ok p
            → IsInvalid h.ethers h.signing x.initiator_xpub msg.signature
                (x.key_index p)
                (x.hash p))
        → Refuses (exchange_step h msg x)
    unfolding exchange_step
    exchange_step-Refuses x forged =
        subst Refuses (sym (step_of-second _ _))
          (responding-Refuses h.ethers h.signing x msg.signature forged)

    protocol_step-Refuses :
        (stored : String → Result StateChannel) (params : ProtocolParam)
        → IsForged msg stored params
        → Refuses (protocol_step h msg stored params)
    unfolding protocol_step setup_exchange propose_exchange uninstall_exchange update_exchange
    protocol_step-Refuses stored (setup m from to) forged =
        exchange_step-Refuses (setup_exchange h.ethers h.signing (setup_of h msg m from to)) forged
    protocol_step-Refuses stored (propose m params) forged =
        exchange_step-Refuses
          (propose_exchange h.ethers h.signing (propose_of h msg (stored m) params)) forged
    protocol_step-Refuses stored (install m params) forged =
        subst Refuses (sym (step_of-second _ _))
          (installing-Refuses (install_of h msg (stored m) params) msg.signature forged)
    protocol_step-Refuses stored (uninstall m from to id block) forged =
        exchange_step-Refuses
          (uninstall_exchange h.ethers h.signing h.decoder h.chain
            (uninstall_of h msg (stored m) from to id block))
          forged
    protocol_step-Refuses stored (update_state m from to id new_state) forged =
        exchange_step-Refuses
          (update_exchange h.ethers h.signing
            (update (update_of h msg (stored m) from to id) new_state))
          forged
    protocol_step-Refuses stored (take_action_on m from to id action) forged =
        exchange_step-Refuses
          (update_exchange h.ethers h.signing
            (take_action (update_of h msg (stored m) from to id) h.compute_state_transition action))
          forged
    protocol_step-Refuses stored (unknown protocol) forged = (_, refl)

  -- A node receives the first message of a protocol, whichever it is, and the signature in it is not
  -- the initiator's, by the key that the protocol names, of the hash that the node itself prepares from
  -- the message and its channel. It may well be the initiator's of something else. Then the node
  -- throws, and is as it was.
  pub forged_message-refused :
      (msg : ProtocolMessage) (w : World W)
      → msg.seq ≡ pos 1
      → IsForged msg (get_state_channel h.ethers h.svc w.store) msg.params
      → (message : String) × (handle_received_protocol_message h msg w ≡ (err message, w))
  unfolding handle_received_protocol_message run_protocol_with_message run_protocol
  forged_message-refused msg w second forged =
      let (message, refused) =
        protocol_step-Refuses msg second (get_state_channel h.ethers h.svc w.store) msg.params
          forged in
      let ran : run_protocol_with_message h msg w ≡ (err message, w) =
        ap (λ process. run h process w) refused in
      (message, rw (handles, ran) refl)
    where
      handles : eqb_ℤ msg.seq unassigned_seq_no ≡ false
      handles = rw second refl
