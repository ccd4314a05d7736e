-- ===== src/RuleEngine/Defaults.antt =====
-- The built-in rules of client/core/rule_engine.py (`_load_defaults`): the two tables.
use vpnself.Prelude.{List, [], ◌∷◌, Text, codes, ℤ, pos}

abbrev pub default_proxy_domains : List (Text × ℤ)
default_proxy_domains =
    (codes "google.com", pos 0)
    ∷ (codes "*.google.com", pos 0)
    ∷ (codes "*.googleapis.com", pos 0)
    ∷ (codes "*.gstatic.com", pos 0)
    ∷ (codes "*.googleusercontent.com", pos 0)
    ∷ (codes "*.googlevideo.com", pos 0)
    ∷ (codes "*.gvt2.com", pos 0)
    ∷ (codes "*.gvt1.com", pos 0)
    ∷ (codes "*.youtube-nocookie.com", pos 0)
    ∷ (codes "*.google-analytics.com", pos 0)
    ∷ (codes "*.googletagmanager.com", pos 0)
    ∷ (codes "*.googleadservices.com", pos 0)
    ∷ (codes "*.doubleclick.net", pos 0)
    ∷ (codes "*.chrome.com", pos 0)
    ∷ (codes "*.goog", pos 0)
    ∷ (codes "youtube.com", pos 0)
    ∷ (codes "*.youtube.com", pos 0)
    ∷ (codes "*.ytimg.com", pos 0)
    ∷ (codes "*.youtu.be", pos 0)
    ∷ (codes "*.ggpht.com", pos 0)
    ∷ (codes "chatgpt.com", pos 0)
    ∷ (codes "*.chatgpt.com", pos 0)
    ∷ (codes "openai.com", pos 0)
    ∷ (codes "*.openai.com", pos 0)
    ∷ (codes "*.oaistatic.com", pos 0)
    ∷ (codes "*.oaiusercontent.com", pos 0)
    ∷ (codes "gemini.google.com", pos 0)
    ∷ (codes "claude.ai", pos 0)
    ∷ (codes "*.claude.ai", pos 0)
    ∷ (codes "perplexity.ai", pos 0)
    ∷ (codes "*.perplexity.ai", pos 0)
    ∷ (codes "twitter.com", pos 0)
    ∷ (codes "*.twitter.com", pos 0)
    ∷ (codes "*.twimg.com", pos 0)
    ∷ (codes "t.co", pos 0)
    ∷ (codes "x.com", pos 0)
    ∷ (codes "*.x.com", pos 0)
    ∷ (codes "facebook.com", pos 0)
    ∷ (codes "*.facebook.com", pos 0)
    ∷ (codes "*.fbcdn.net", pos 0)
    ∷ (codes "instagram.com", pos 0)
    ∷ (codes "*.instagram.com", pos 0)
    ∷ (codes "*.cdninstagram.com", pos 0)
    ∷ (codes "discord.com", pos 0)
    ∷ (codes "*.discord.com", pos 0)
    ∷ (codes "*.discordapp.com", pos 0)
    ∷ (codes "reddit.com", pos 0)
    ∷ (codes "*.reddit.com", pos 0)
    ∷ (codes "*.redditmedia.com", pos 0)
    ∷ (codes "tiktok.com", pos 0)
    ∷ (codes "*.tiktok.com", pos 0)
    ∷ (codes "*.tiktokcdn.com", pos 0)
    ∷ (codes "github.com", pos 0)
    ∷ (codes "*.github.com", pos 0)
    ∷ (codes "*.githubusercontent.com", pos 0)
    ∷ (codes "*.githubassets.com", pos 0)
    ∷ (codes "gitlab.com", pos 0)
    ∷ (codes "*.gitlab.com", pos 0)
    ∷ (codes "stackoverflow.com", pos 0)
    ∷ (codes "*.stackoverflow.com", pos 0)
    ∷ (codes "*.stackexchange.com", pos 0)
    ∷ (codes "*.docker.com", pos 0)
    ∷ (codes "*.docker.io", pos 0)
    ∷ (codes "netflix.com", pos 0)
    ∷ (codes "*.netflix.com", pos 0)
    ∷ (codes "*.nflxvideo.net", pos 0)
    ∷ (codes "*.nflxext.com", pos 0)
    ∷ (codes "spotify.com", pos 0)
    ∷ (codes "*.spotify.com", pos 0)
    ∷ (codes "*.scdn.co", pos 0)
    ∷ (codes "twitch.tv", pos 0)
    ∷ (codes "*.twitch.tv", pos 0)
    ∷ (codes "binance.com", pos 0)
    ∷ (codes "*.binance.com", pos 0)
    ∷ (codes "*.binance.cloud", pos 0)
    ∷ (codes "*.bnbstatic.com", pos 0)
    ∷ (codes "bybit.com", pos 0)
    ∷ (codes "*.bybit.com", pos 0)
    ∷ (codes "coinbase.com", pos 0)
    ∷ (codes "*.coinbase.com", pos 0)
    ∷ (codes "okx.com", pos 0)
    ∷ (codes "*.okx.com", pos 0)
    ∷ (codes "wikipedia.org", pos 0)
    ∷ (codes "*.wikipedia.org", pos 0)
    ∷ (codes "*.steampowered.com", pos 0)
    ∷ (codes "steamcommunity.com", pos 0)
    ∷ (codes "*.notion.so", pos 0)
    ∷ (codes "slack.com", pos 0)
    ∷ (codes "*.slack.com", pos 0)
    ∷ (codes "*.zoom.us", pos 0)
    ∷ (codes "*.dropbox.com", pos 0)
    ∷ (codes "*.dropboxusercontent.com", pos 0)
    ∷ (codes "*.intercom.io", pos 0)
    ∷ (codes "*.intercomcdn.com", pos 0)
    ∷ []

abbrev pub default_direct_domains : List (Text × ℤ)
default_direct_domains =
    (codes "*.cn", pos 100)
    ∷ (codes "*.*.cn", pos 100)
    ∷ (codes "*.*.*.cn", pos 100)
    ∷ (codes "*.aliyun.com", pos 50)
    ∷ (codes "*.alicdn.com", pos 50)
    ∷ (codes "*.alipay.com", pos 50)
    ∷ (codes "*.taobao.com", pos 50)
    ∷ (codes "*.tmall.com", pos 50)
    ∷ (codes "*.jd.com", pos 50)
    ∷ (codes "*.baidu.com", pos 50)
    ∷ (codes "*.bdstatic.com", pos 50)
    ∷ (codes "*.bilibili.com", pos 50)
    ∷ (codes "*.hdslb.com", pos 50)
    ∷ (codes "*.qq.com", pos 50)
    ∷ (codes "*.gtimg.com", pos 50)
    ∷ (codes "*.weixin.qq.com", pos 50)
    ∷ (codes "*.wechat.com", pos 50)
    ∷ (codes "*.douyin.com", pos 50)
    ∷ (codes "*.ixigua.com", pos 50)
    ∷ (codes "*.bytedance.com", pos 50)
    ∷ (codes "*.zhihu.com", pos 50)
    ∷ (codes "*.csdn.net", pos 50)
    ∷ (codes "*.mi.com", pos 50)
    ∷ (codes "*.xiaomi.com", pos 50)
    ∷ (codes "*.meituan.com", pos 50)
    ∷ (codes "*.dianping.com", pos 50)
    ∷ (codes "*.ctrip.com", pos 50)
    ∷ (codes "*.12306.cn", pos 50)
    ∷ (codes "*.pinduoduo.com", pos 50)
    ∷ (codes "*.msftconnecttest.com", pos 60)
    ∷ (codes "*.msftncsi.com", pos 60)
    ∷ (codes "e.clarity.ms", pos 60)
    ∷ (codes "*.clarity.ms", pos 60)
    ∷ (codes "mobile.events.data.microsoft.com", pos 60)
    ∷ (codes "connectivitycheck.gstatic.com", pos 60)
    ∷ (codes "*.vscode-cdn.net", pos 60)
    ∷ []
