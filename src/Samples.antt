-- ===== src/Samples.antt =====
-- Tests, and the theorems at concrete inputs.
mod ToyCodec
mod ToyPatcher
mod KeySamples
mod MemorySamples
mod ClientSamples
mod ChannelSamples
mod FilterSamples
mod ServerSamples
mod StreamSamples
mod SubscribeSamples
mod IoSamples
mod LifecycleSamples
mod SiteSamples
mod WireSamples
