-- ===== src/EndToEnd/Storable.antt =====
-- Configurations that survive being saved and loaded.
use cfg_mgr.Base.{◌≤◌, Bool, true, false, length, if◌then◌else◌}
use cfg_mgr.Base.Text.{Text}
use cfg_mgr.Params.{LanParam, Param, IsValid}
use cfg_mgr.Config.{param_doc}
use cfg_mgr.Config.Words.{IsWord, Worded, HasWords, param_doc-Worded}
use cfg_mgr.Config.RoundTrip.{IsNet, HasTexts}
use cfg_mgr.Cgi.Users.Laws.{IsKey}

-- A configuration that paramSave can write so that paramLoad reads it: names, passwords and paths of
-- printable characters without blanks.
pub record Storable (p : Param) : Type 0 where
  pub valid : IsValid p
  pub admin_texts : HasTexts p.admin
  pub normal_texts : HasTexts p.normal
  pub net1 : IsNet p.lan1.net
  pub net2 : IsNet p.lan2.net
  pub path1 : length p.lan1.capture.auto_up_load_path ≤ 255
  pub path2 : length p.lan2.capture.auto_up_load_path ≤ 255
  pub admin_words : HasWords p.admin
  pub normal_words : HasWords p.normal
  pub path1_word : IsWord p.lan1.capture.auto_up_load_path
  pub path2_word : IsWord p.lan2.capture.auto_up_load_path

pub Storable-Worded : (p : Param) → Storable p → Worded (param_doc p)
Storable-Worded p v = param_doc-Worded p v.admin_words v.normal_words v.path1_word v.path2_word

-- Other interfaces may have other parameters, with paths that fit.
pub lans-Storable :
    (p : Param) (lan1 lan2 : LanParam)
    → Storable p
    → IsNet lan1.net
    → IsNet lan2.net
    → length lan1.capture.auto_up_load_path ≤ 255
    → length lan2.capture.auto_up_load_path ≤ 255
    → IsWord lan1.capture.auto_up_load_path
    → IsWord lan2.capture.auto_up_load_path
    → Storable (record p { lan1 = lan1; lan2 = lan2 })
lans-Storable p lan1 lan2 v n1 n2 p1 p2 w1 w2 = record {
  valid = record { admin_valid = v.valid.admin_valid; normal_valid = v.valid.normal_valid };
  admin_texts = v.admin_texts;
  normal_texts = v.normal_texts;
  net1 = n1;
  net2 = n2;
  path1 = p1;
  path2 = p2;
  admin_words = v.admin_words;
  normal_words = v.normal_words;
  path1_word = w1;
  path2_word = w2;
}

module _ (p : Param) (new : Text) (v : Storable p) (k : IsKey new) (w : IsWord new) where
  pub normal-Storable : Storable (record p { normal = record p.normal { passwd = new } })
  normal-Storable = record {
    valid = record {
      admin_valid = v.valid.admin_valid;
      normal_valid = record { name_fits = v.valid.normal_valid.name_fits; passwd_fits = k.cstr };
    };
    admin_texts = v.admin_texts;
    normal_texts = record { named = v.normal_texts.named; secret = k.given };
    net1 = v.net1;
    net2 = v.net2;
    path1 = v.path1;
    path2 = v.path2;
    admin_words = v.admin_words;
    normal_words = record { name_word = v.normal_words.name_word; passwd_word = w };
    path1_word = v.path1_word;
    path2_word = v.path2_word;
  }

  pub admin-Storable : Storable (record p { admin = record p.admin { passwd = new } })
  admin-Storable = record {
    valid = record {
      admin_valid = record { name_fits = v.valid.admin_valid.name_fits; passwd_fits = k.cstr };
      normal_valid = v.valid.normal_valid;
    };
    admin_texts = record { named = v.admin_texts.named; secret = k.given };
    normal_texts = v.normal_texts;
    net1 = v.net1;
    net2 = v.net2;
    path1 = v.path1;
    path2 = v.path2;
    admin_words = record { name_word = v.admin_words.name_word; passwd_word = w };
    normal_words = v.normal_words;
    path1_word = v.path1_word;
    path2_word = v.path2_word;
  }

pub if-Storable : (b : Bool) (x y : Param) → Storable x → Storable y → Storable (if b then x else y)
if-Storable true x y vx vy = vx
if-Storable false x y vx vy = vy
