-- ===== src/Web/Confirm.antt =====
-- genConfirmMsg of web.c, and the shape of a handler.
use cfg_mgr.Base.{length, ◌≤◌, ◌≡◌, refl, arith, []}
use cfg_mgr.Base.Text.{Text, IsCstr}
use cfg_mgr.Memory.{Bytes, zeroed, store, strncpy, load, cstr_at}
use cfg_mgr.Memory.Strings.{Holds, cstr_at-eq, strncpy-Holds}
use cfg_mgr.Message.{
  Msg, comfirm, CfgMgrStatus, cfgmgr_ok, cfgmgr_err, status_code, log_buf_len_max,
}
use cfg_mgr.Env.{Env}
use cfg_mgr.Trace.{Daemon}

-- The status that the handler returns, the message that it leaves in its out argument, and the
-- state of the daemon.
pub record Reply (env : Env) : Type 0 where
  pub status : CfgMgrStatus
  pub out : Msg
  pub daemon : Daemon env

-- A response without an error has a NUL at the first byte of errMessage, and zeros behind it.
unfoldable pub confirm_payload : CfgMgrStatus → Text → Bytes
confirm_payload cfgmgr_ok err = store 4 0 (status_code cfgmgr_ok) zeroed
confirm_payload status err = strncpy 4 log_buf_len_max err (store 4 0 (status_code status) zeroed)

unfoldable pub gen_confirm_msg : CfgMgrStatus → Text → Msg
gen_confirm_msg status err = record { type = comfirm; payload = confirm_payload status err }

-- The end of most handlers: `genConfirmMsg (status, out); return status;`
unfoldable pub confirm : {env : Env} → CfgMgrStatus → Daemon env → Reply env
confirm status d = record {
  status = status;
  out = gen_confirm_msg status d.last_cfg_mgr_err;
  daemon = d;
}

-- The errMessage that the CGI prints for a status: the text of the last trace, or nothing.
abbrev pub err_message : CfgMgrStatus → Text → Text
err_message cfgmgr_ok err = []
err_message status err = err

pub confirm_payload-load :
    (status : CfgMgrStatus) (err : Text)
    → load 4 0 (confirm_payload status err) ≡ status_code status
unfolding confirm_payload load store strncpy
confirm_payload-load cfgmgr_ok err = refl
confirm_payload-load cfgmgr_err err = refl
confirm_payload-load status err = refl

-- The text of the last trace stands in the confirmation with its NUL.
pub confirm_payload-Holds :
    (status : CfgMgrStatus) (err : Text)
    → IsCstr 59 err
    → Holds (err_message status err) 4 (confirm_payload status err)
unfolding confirm_payload store
confirm_payload-Holds cfgmgr_ok err v = refl
confirm_payload-Holds cfgmgr_err err v = strncpy-Holds 4 60 59 err _ v (omega arith)
confirm_payload-Holds status err v = strncpy-Holds 4 60 59 err _ v (omega arith)

pub err_message-length :
    (status : CfgMgrStatus) (err : Text) → IsCstr 59 err → length (err_message status err) ≤ 59
err_message-length cfgmgr_ok err v = omega arith
err_message-length cfgmgr_err err v = v.fits
err_message-length status err v = v.fits

-- What the CGI reads from a confirmation (`resp->status` and `resp->errMessage`) is the status
-- that the handler returned, and the text of the last trace call, which is empty for CFGMGR_OK:
-- for every status, and every text of at most 59 characters, as trace keeps.
pub gen_confirm_msg-fields :
    (status : CfgMgrStatus) (err : Text)
    → IsCstr 59 err
    → let m = gen_confirm_msg status err in
      (m.type ≡ comfirm)
      × (load 4 0 m.payload ≡ status_code status)
      × (cstr_at 61 4 m.payload ≡ err_message status err)
unfolding gen_confirm_msg
gen_confirm_msg-fields status err v =
    let short = err_message-length status err v in
    (
      refl,
      confirm_payload-load status err,
      cstr_at-eq _ 61 4 _ (omega arith) (confirm_payload-Holds status err v),
    )
