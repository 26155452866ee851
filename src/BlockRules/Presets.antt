-- ===== src/BlockRules/Presets.antt =====
-- The presets of block_rule.go and ApplyPreset.
use nexcore_x_ui.Prelude.{
  ℕ, String, Bool, true, not, ◌&&◌, Option, none, some, List, [], ◌∷◌, str_eq, ◌==◌, if◌then◌else◌,
}
use nexcore_x_ui.Exec.{preset_unknown, Exec, ◌>>=◌, ◌>>◌, pure, raise, when, transaction}
use nexcore_x_ui.Model.{BlockRule}
use nexcore_x_ui.Table.Schemas.{Tables, Panel}
use nexcore_x_ui.Panel.{find_block_rules, create_block_rule, update_block_rules}

-- A rule of a preset: the fields that the literal sets.
pub record PresetRule : Type 0 where
  pub kind : String
  pub value : String
  pub remark : String

pub record Preset : Type 0 where
  pub key : String
  pub name : String
  pub description : String
  pub rules : List PresetRule

abbrev rule : String → String → String → PresetRule
rule kind value remark = record { kind = kind; value = value; remark = remark }

abbrev pub presets : List Preset
presets =
    record {
      key = "cn-gov";
      name = "屏蔽国内政府/教育网站";
      description = "命中 geosite:category-gov-cn / category-edu-cn,以及常见 .gov.cn / .edu.cn 后缀";
      rules =
          rule "geosite" "category-gov-cn" "国内政府"
          ∷ rule "geosite" "category-edu-cn" "国内教育"
          ∷ rule "domain" "domain:gov.cn,domain:edu.cn" "兜底:.gov.cn / .edu.cn"
          ∷ [];
    }
    ∷ record {
      key = "cn-bank";
      name = "屏蔽国内银行/支付";
      description = "国内主流银行 + 支付宝/微信支付/银联,避免风控触发";
      rules =
          rule "geosite" "category-bank-cn" "国内银行"
          ∷ rule "domain" "domain:alipay.com,domain:tenpay.com,domain:unionpay.com" "支付宝/微信/银联"
          ∷ [];
    }
    ∷ record {
      key = "bt";
      name = "屏蔽 BT/PT 流量";
      description = "封锁 bittorrent 协议 + 常见 tracker 域名,避免触发服务器商滥用警告";
      rules =
          rule "protocol" "bittorrent" "bittorrent 协议"
          ∷ rule "geosite" "category-public-tracker" "公共 tracker"
          ∷ [];
    }
    ∷ record {
      key = "ads";
      name = "屏蔽广告 / 跟踪";
      description = "geosite:category-ads-all,覆盖主流广告域名";
      rules = rule "geosite" "category-ads-all" "广告 + 跟踪" ∷ [];
    }
    ∷ record {
      key = "private";
      name = "屏蔽内网 IP 访问";
      description = "防止用户透过 VPN 访问服务器内网(SSRF 风险)";
      rules = rule "geoip" "private" "私网 IP 段" ∷ [];
    }
    ∷ []

unfoldable pub find_preset : String → List Preset → Option Preset
find_preset k [] = none
find_preset k (p ∷ ps) = if str_eq p.key k then some p else find_preset k ps

-- `type = ? AND value = ? AND inbound_tag = ?`
abbrev pub is_same_rule : PresetRule → String → BlockRule → Bool
is_same_rule p tag r = str_eq r.kind p.kind && (str_eq r.value p.value && str_eq r.inbound_tag tag)

module _ (g : Tables) where
  -- A rule that is there is switched on if it is off; one that is not is added.
  abbrev pub enable_or_add : PresetRule → String → ℕ → List BlockRule → Exec (Panel g) (Unit {0})
  enable_or_add p tag now [] = do
    create_block_rule g (record {
      id = 0;
      kind = p.kind;
      value = p.value;
      remark = p.remark;
      inbound_tag = tag;
      enable = true;
      created_at = now;
    })
    pure tt
  enable_or_add p tag now (existing ∷ _) =
      when (not existing.enable) do
        update_block_rules g (λ r. r.id == existing.id) (λ r. record r { enable = true })
        pure tt

  unfoldable pub apply_rule : PresetRule → String → ℕ → Exec (Panel g) (Unit {0})
  apply_rule p tag now = find_block_rules g (is_same_rule p tag) >>= enable_or_add p tag now

  unfoldable pub apply_rules : List PresetRule → String → ℕ → Exec (Panel g) (Unit {0})
  unfolding apply_rule
  apply_rules [] tag now = pure tt
  apply_rules (p ∷ ps) tag now = apply_rule p tag now >>= λ _. apply_rules ps tag now

  abbrev apply_found : Option Preset → String → ℕ → Exec (Panel g) (Unit {0})
  apply_found none tag now = raise preset_unknown
  apply_found (some p) tag now = transaction (apply_rules p.rules tag now)

  unfoldable pub apply_preset : String → String → ℕ → Exec (Panel g) (Unit {0})
  unfolding find_preset apply_rules
  apply_preset key tag now = apply_found (find_preset key presets) tag now
